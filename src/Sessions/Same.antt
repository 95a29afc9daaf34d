-- ===== src/Sessions/Same.antt =====
-- What the comparison of multinexus/store/sessions.py with an expected row shows of the row.
use multinexus.Base.{
  both, nat_eq, string_eq, option_eq, String, ◌≡◌, refl, sym, ap, ◌∙◌, true, inl, inr, Option, none,
  some, Option-cases, ==_iff,
}
use multinexus.Sessions.{
  Expected, Status, active, stale, archived, Session, Table, same_status, same_identity, absent,
  row, session_matches_expected,
}
use multinexus.Sessions.Table.{find, find-has_key}

same_status-eq : (s t : Status) → same_status s t ≡ true → s ≡ t
same_status-eq active active h = refl
same_status-eq stale stale h = refl
same_status-eq archived archived h = refl
same_status-eq active stale h = cc
same_status-eq active archived h = cc
same_status-eq stale active h = cc
same_status-eq stale archived h = cc
same_status-eq archived active h = cc
same_status-eq archived stale h = cc

-- Rows of the same key that pass the comparison are equal in every column.
same_identity-eq :
    (e s : Session)
    → e.scope_id ≡ s.scope_id
    → e.agent_id ≡ s.agent_id
    → same_identity e s ≡ true
    → e ≡ s
unfolding same_identity
same_identity-eq e s scope agent h =
    let (h9, message) = both _ _ h in
    let (h8, token) = both _ _ h9 in
    let (h7, generation) = both _ _ h8 in
    let (h6, dir) = both _ _ h7 in
    let (h5, adapter) = both _ _ h6 in
    let (h4, session) = both _ _ h5 in
    let (h3, turns) = both _ _ h4 in
    let (h2, updated) = both _ _ h3 in
    let (status, created) = both _ _ h2 in
    λ i. record {
      scope_id = scope i;
      agent_id = agent i;
      adapter = (==_iff e.adapter s.adapter).0 adapter i;
      session_id = (==_iff e.session_id s.session_id).0 session i;
      work_dir = (==_iff e.work_dir s.work_dir).0 dir i;
      status = same_status-eq e.status s.status status i;
      turn_count = (==_iff e.turn_count s.turn_count).0 turns i;
      created_at = (==_iff e.created_at s.created_at).0 created i;
      updated_at = (==_iff e.updated_at s.updated_at).0 updated i;
      context_generation = (==_iff e.context_generation s.context_generation).0 generation i;
      context_cursor_order_token =
          (==_iff e.context_cursor_order_token s.context_cursor_order_token).0 token i;
      context_cursor_message_id =
          (==_iff e.context_cursor_message_id s.context_cursor_message_id).0 message i;
    }

-- The row that has been read, which is of the key.
unfoldable pub HasKey : String → String → Option Session → Type 0
HasKey scope agent none = Unit
HasKey scope agent (some r) = (r.scope_id ≡ scope) × (r.agent_id ≡ agent)

-- What a caller that has read `none` or a row passes on as the expected row.
abbrev pub expecting : Option Session → Expected
expecting none = absent
expecting (some r) = row r

-- The comparison succeeds only where the table's row is the row that was read, in every column.
matches-eq :
    (scope agent : String) (o : Option Session) (read : Option Session)
    → HasKey scope agent o
    → HasKey scope agent read
    → session_matches_expected o (expecting read) ≡ true
    → o ≡ read
unfolding session_matches_expected HasKey
matches-eq scope agent none none k l h = refl
matches-eq scope agent none (some r) k l h = cc
matches-eq scope agent (some q) none k l h = cc
matches-eq scope agent (some q) (some r) (q_scope, q_agent) (r_scope, r_agent) h =
    ap some (sym (same_identity-eq r q (r_scope ∙ sym q_scope) (r_agent ∙ sym q_agent) h))

pub find-HasKey : (scope agent : String) (t : Table) → HasKey scope agent (find scope agent t)
unfolding HasKey
find-HasKey scope agent t = elim (Option-cases (find scope agent t)) [
  | inl e ↦ rw e tt
  | inr (r, e) ↦ rw e (find-has_key scope agent t r e)
]

pub find-matches :
    (scope agent : String) (t : Table) (read : Option Session)
    → HasKey scope agent read
    → session_matches_expected (find scope agent t) (expecting read) ≡ true
    → find scope agent t ≡ read
find-matches scope agent t read l h =
    matches-eq scope agent (find scope agent t) read (find-HasKey scope agent t) l h
