-- ===== src/Capacity/Catalog.antt =====
-- The digests of multinexus/executor_capacity_authority.py: what they determine, and what they do not
-- depend on.
use multinexus.Base.{
  ◌≡◌, ◌≢◌, ap, ◌∙◌, refl, sym, true, false, List, [], ◌∷◌, ◌++◌, inl, inr, Bool-cases,
  if◌then◌else◌,
}
use multinexus.Base.Text.{codes, codes-injective}
use multinexus.Base.Json.{Json, field, end, dumps}
use multinexus.Base.Json.Injective.{dumps-injective}
use multinexus.Lease.{Platform}
use multinexus.Base.Order.{codes_leb, codes_leb_total, codes_leb-antisym, codes_leb_trans}
use multinexus.Capacity.{
  CapacityPolicy, CapacityCatalog, insert_policy, sorted_policies, policy_json, policy_items,
  canonical_capacity_catalog_dict, compute_capacity_catalog_hash,
}

policy_json-injective : (p q : CapacityPolicy) → policy_json p ≡ policy_json q → p ≡ q
unfolding policy_json
policy_json-injective p q h =
    let agent = codes-injective p.agent_id q.agent_id (cc) in
    let jobs : p.max_concurrent_jobs ≡ q.max_concurrent_jobs = cc in
    λ i. record { agent_id = agent i; max_concurrent_jobs = jobs i }

policy_items-injective : (ps qs : List CapacityPolicy) → policy_items ps ≡ policy_items qs → ps ≡ qs
unfolding policy_items
policy_items-injective [] [] h = refl
policy_items-injective [] (q ∷ qs) h = cc
policy_items-injective (p ∷ ps) [] h = cc
policy_items-injective (p ∷ ps) (q ∷ qs) h =
    let first = policy_json-injective p q (cc) in let rest = policy_items-injective ps qs (cc) in cc

-- Two catalogs with the same hash have the same source, the same version and, in the order of the
-- agents, the same policies, unless their canonical texts are a collision of the hash.
pub compute_capacity_catalog_hash-determines :
    (p : Platform) (c d : CapacityCatalog)
    → compute_capacity_catalog_hash p c ≡ compute_capacity_catalog_hash p d
    → (p.sha256_hex (dumps (canonical_capacity_catalog_dict c))
          ≡ p.sha256_hex (dumps (canonical_capacity_catalog_dict d))
        → dumps (canonical_capacity_catalog_dict c) ≡ dumps (canonical_capacity_catalog_dict d))
    → (c.source_id ≡ d.source_id)
      × (c.source_version ≡ d.source_version)
      × (sorted_policies c.policies ≡ sorted_policies d.policies)
unfolding compute_capacity_catalog_hash canonical_capacity_catalog_dict
compute_capacity_catalog_hash-determines p c d h no_collision =
    let same = dumps-injective _ _ (no_collision h) in
    (codes-injective c.source_id d.source_id (cc), cc, policy_items-injective _ _ (cc))

module _ (p q : CapacityPolicy) (ps : List CapacityPolicy) where
  insert_here :
      codes_leb (codes p.agent_id) (codes q.agent_id) ≡ true → insert_policy p (q ∷ ps) ≡ p ∷ q ∷ ps
  unfolding insert_policy
  insert_here h = ap (λ b. if b then p ∷ q ∷ ps else q ∷ insert_policy p ps) h

  insert_later :
      codes_leb (codes p.agent_id) (codes q.agent_id) ≡ false
      → insert_policy p (q ∷ ps) ≡ q ∷ insert_policy p ps
  unfolding insert_policy
  insert_later h = ap (λ b. if b then p ∷ q ∷ ps else q ∷ insert_policy p ps) h

ordered_comm :
    (p q : CapacityPolicy) (ps : List CapacityPolicy)
    → codes_leb (codes p.agent_id) (codes q.agent_id) ≡ true
    → codes_leb (codes q.agent_id) (codes p.agent_id) ≡ false
    → insert_policy p (insert_policy q ps) ≡ insert_policy q (insert_policy p ps)
ordered_comm p q [] h k = unfold insert_policy in insert_here p q [] h ∙ sym (insert_later q p [] k)
ordered_comm p q (r ∷ rs) h k =
    elim (Bool-cases (codes_leb (codes q.agent_id) (codes r.agent_id))) [
      | inl e ↦
          let e' = codes_leb_trans _ _ _ h e in
          ap (insert_policy p) (insert_here q r rs e)
          ∙ insert_here p q (r ∷ rs) h
          ∙ sym (
              ap (insert_policy q) (insert_here p r rs e')
              ∙ insert_later q p (r ∷ rs) k
              ∙ ap (λ l. p ∷ l) (insert_here q r rs e))
      | inr e ↦ elim (Bool-cases (codes_leb (codes p.agent_id) (codes r.agent_id))) [
        | inl f ↦
            ap (insert_policy p) (insert_later q r rs e)
            ∙ insert_here p r (insert_policy q rs) f
            ∙ sym (
                ap (insert_policy q) (insert_here p r rs f)
                ∙ insert_later q p (r ∷ rs) k
                ∙ ap (λ l. p ∷ l) (insert_later q r rs e))
        | inr f ↦
            ap (insert_policy p) (insert_later q r rs e)
            ∙ insert_later p r (insert_policy q rs) f
            ∙ ap (λ l. r ∷ l) (ordered_comm p q rs h k)
            ∙ sym (
                ap (insert_policy q) (insert_later p r rs f)
                ∙ insert_later q r (insert_policy p rs) e)
      ]
    ]

insert_comm :
    (p q : CapacityPolicy) (ps : List CapacityPolicy)
    → p.agent_id ≢ q.agent_id
    → insert_policy p (insert_policy q ps) ≡ insert_policy q (insert_policy p ps)
insert_comm p q ps h = elim (Bool-cases (codes_leb (codes p.agent_id) (codes q.agent_id))) [
  | inl e ↦ elim (Bool-cases (codes_leb (codes q.agent_id) (codes p.agent_id))) [
    | inl f ↦ absurd (h (codes-injective _ _ (codes_leb-antisym _ _ e f)))
    | inr f ↦ ordered_comm p q ps e f
  ]
  | inr e ↦ sym (ordered_comm q p ps (codes_leb_total _ _ e) e)
]

swapped :
    (ps : List CapacityPolicy) (p q : CapacityPolicy) (qs : List CapacityPolicy)
    → p.agent_id ≢ q.agent_id
    → sorted_policies (ps ++ (p ∷ q ∷ qs)) ≡ sorted_policies (ps ++ (q ∷ p ∷ qs))
unfolding sorted_policies
swapped [] p q qs h = insert_comm p q (sorted_policies qs) h
swapped (r ∷ ps) p q qs h = ap (insert_policy r) (swapped ps p q qs h)

-- The hash of a catalog does not change when two neighbouring policies of different agents change
-- places in the registry.
pub compute_capacity_catalog_hash-swap :
    (p : Platform) (c : CapacityCatalog) (ps : List CapacityPolicy) (q r : CapacityPolicy)
    (qs : List CapacityPolicy)
    → q.agent_id ≢ r.agent_id
    → compute_capacity_catalog_hash p (record c { policies = ps ++ (q ∷ r ∷ qs) })
      ≡ compute_capacity_catalog_hash p (record c { policies = ps ++ (r ∷ q ∷ qs) })
unfolding compute_capacity_catalog_hash canonical_capacity_catalog_dict
compute_capacity_catalog_hash-swap p c ps q r qs h =
    ap
      (λ l. p.sha256_hex (
        dumps (
          Json.object (
            field (codes "contract_version") (Json.number 1) (
              field (codes "policies") (Json.array (policy_items l)) (
                field (codes "source_id") (Json.text (codes c.source_id))
                  (field (codes "source_version") (Json.number c.source_version) end)))))))
      (swapped ps q r qs h)
