-- ===== src/Capacity/Examples.antt =====
-- A registry of two agents through multinexus/executor_capacity_authority.py, on the platform of the
-- example of the lease, whose digest is constant.
use multinexus.Base.{◌≡◌, ◌≢◌, refl, String, arith, ==_iff, string_eq, [], ◌∷◌}
use multinexus.Base.Text.{strip, drop_while, is_space}
use multinexus.Base.Value.{
  pos, Value, Members, empty, member, get, lookup, has_only, Items, nil, item,
}
use Value.{int, text, array, object}
use multinexus.Base.Result.{ok, err}
use multinexus.Lease.{times, is_label, is_label_char}
use multinexus.Lease.Examples.{platform}
use multinexus.Base.Order.{codes_leb}
use multinexus.Claims.Validators.{is_in}
use multinexus.Capacity.{
  CapacityPolicy, CapacityCatalog, insert_policy, sorted_policies, is_capacity_label,
  capacity_label, validate_max_concurrent_jobs, canonical_capacity_catalog_dict,
  compute_capacity_catalog_hash, source_version_of, table_of, entries_of, capacity_entries,
  parse_capacity_catalog, capacity_authority_error,
}
use multinexus.Capacity.Catalog.{
  compute_capacity_catalog_hash-determines, compute_capacity_catalog_hash-swap,
}

abbrev grok : CapacityPolicy
grok = record { agent_id = "grok"; max_concurrent_jobs = 2 }

abbrev codex : CapacityPolicy
codex = record { agent_id = "codex"; max_concurrent_jobs = 1 }

abbrev catalog : CapacityCatalog
catalog = record {
  source_id = "registry";
  source_version = 3;
  catalog_hash = times 64 b'a' [];
  policies = grok ∷ codex ∷ [];
}

abbrev entry : CapacityPolicy → Value
entry p = object (
    member "agent_id" (text p.agent_id)
      (member "max_concurrent_jobs" (int (pos p.max_concurrent_jobs)) empty))

abbrev registry : Items → Members
registry entries =
    member "capacity_registry"
      (object (member "id" (text "registry") (member "version" (int (pos 3)) empty)))
      (member "executor_capacities" (array entries) empty)

parsed :
    parse_capacity_catalog platform (registry (item (entry grok) (item (entry codex) nil)))
    ≡ ok catalog
unfolding parse_capacity_catalog capacity_entries entries_of table_of source_version_of
    validate_max_concurrent_jobs capacity_label is_capacity_label compute_capacity_catalog_hash
    has_only get lookup is_in is_label is_label_char strip drop_while is_space
parsed = refl

twice :
    parse_capacity_catalog platform (registry (item (entry grok) (item (entry grok) nil)))
    ≡ err capacity_authority_error
unfolding parse_capacity_catalog capacity_entries entries_of table_of source_version_of
    validate_max_concurrent_jobs capacity_label is_capacity_label compute_capacity_catalog_hash
    has_only get lookup is_in is_label is_label_char strip drop_while is_space
twice = refl

by_agent : sorted_policies catalog.policies ≡ codex ∷ grok ∷ []
unfolding sorted_policies insert_policy codes_leb
by_agent = refl

abbrev reordered : CapacityCatalog
reordered = record catalog { policies = codex ∷ grok ∷ [] }

compute_capacity_catalog_hash-determines_example :
    (catalog.source_id ≡ reordered.source_id)
    × (catalog.source_version ≡ reordered.source_version)
    × (sorted_policies catalog.policies ≡ sorted_policies reordered.policies)
unfolding canonical_capacity_catalog_dict sorted_policies insert_policy codes_leb
    compute_capacity_catalog_hash
compute_capacity_catalog_hash-determines_example =
    compute_capacity_catalog_hash-determines platform catalog reordered refl (λ h. refl)

others : ◌≢◌ {A = String} "grok" "codex"
others = ground (arith, ==_iff {A = String} "grok" "codex")

compute_capacity_catalog_hash-swap_example :
    compute_capacity_catalog_hash platform (record catalog { policies = grok ∷ codex ∷ [] })
    ≡ compute_capacity_catalog_hash platform (record catalog { policies = codex ∷ grok ∷ [] })
compute_capacity_catalog_hash-swap_example =
    compute_capacity_catalog_hash-swap platform catalog [] grok codex [] others
