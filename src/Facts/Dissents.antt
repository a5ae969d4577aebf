-- ===== src/Facts/Dissents.antt =====
-- `propose_dissent`, `promote_dissent` and `discard_dissent` of crates/klams-store/src/postgres.rs.
use klams.Common.{ℕ, Bool, ◌&&◌, Option, none, some, if◌then◌else◌, ◌==◌, ltb, Text, ok, err}
use klams.Decay.{FactType}
use klams.Facts.{
  Source, agent_proposal, DissentStatus, pending, promoted, discarded, other, gone,
  version_conflict, FactRow, DissentRow, Db, Written, find_by, update_where, is_pending, dissent_is,
  find_fact, find_dissent, refresh_rows,
}
use klams.Facts.Write.{live_is, file_dissent, amend}

module _ {P : Type 0} where
  -- `UPDATE dissents SET status, resolved_at = now(), resolved_by_source`, with its trigger.
  abbrev pub resolved : (now : ℕ) → DissentStatus → Source → DissentRow P → DissentRow P
  resolved now status source d = record d {
    status = status;
    resolved_at = some now;
    resolved_by_source = some source;
  }

  unfoldable pub resolve : (now : ℕ) → DissentStatus → Source → (DissentRow P → Bool) → Db P → Db P
  unfolding update_where refresh_rows
  resolve now status source rows db =
      let ds = update_where rows (resolved now status source) db.dissents in
      record db { facts = refresh_rows rows db.dissents ds db.facts; dissents = ds }

  abbrev pub mark_promoted :
      (now : ℕ) → Source → DissentRow P → Written P (FactRow P) → Written P (FactRow P)
  mark_promoted now source d (ok (f, db)) = ok (f, resolve now promoted source (dissent_is d.id) db)
  mark_promoted now source d (err e) = err e

  abbrev pub promote_fact :
      (now : ℕ)
      → DissentRow P
      → Source
      → (expected_version : ℕ) → Db P
      → Option (FactRow P)
      → Written P (FactRow P)
  promote_fact now d source ev db none = err other
  promote_fact now d source ev db (some f) =
      if f.version == ev
      then mark_promoted now source d (amend now d.proposed_payload d.payload_hash source f db)
      else err (version_conflict f.version)

  abbrev pub promote_found :
      (now : ℕ)
      → Source
      → (expected_version : ℕ) → Db P
      → Option (DissentRow P)
      → Written P (FactRow P)
  promote_found now source ev db none = err other
  promote_found now source ev db (some d) =
      if is_pending d.status
      then promote_fact now d source ev db (find_fact d.fact_id db)
      else err gone

  unfoldable pub promote_dissent :
      (now i : ℕ) → Source → (expected_version : ℕ) → Db P → Written P (FactRow P)
  unfolding find_by find_fact find_dissent amend resolve
  promote_dissent now i source ev db = promote_found now source ev db (find_dissent i db)

  abbrev pub open_is : ℕ → DissentRow P → Bool
  open_is i d = d.id == i && is_pending d.status

  abbrev pub discard_found :
      (now i : ℕ) → Source → Db P → Option (DissentRow P) → Written P (DissentRow P)
  discard_found now i source db none = err gone
  discard_found now i source db (some d) =
      ok (resolved now discarded source d, resolve now discarded source (open_is i) db)

  unfoldable pub discard_dissent : (now i : ℕ) → Source → Db P → Written P (DissentRow P)
  unfolding find_by resolve
  discard_dissent now i source db = discard_found now i source db (find_by (open_is i) db.dissents)

module _ {P : Type 0} (canonical_json_hash : FactType → P → Text) where
  unfoldable pub proposal :
      (now fresh : ℕ) → FactRow P → P → (author : ℕ) → Text → Option ℕ → DissentRow P
  proposal now fresh f payload author reason against = record {
    id = fresh;
    fact_id = f.id;
    proposed_payload = payload;
    payload_hash = canonical_json_hash f.fact_type payload;
    source = agent_proposal;
    submitted_at = now;
    last_seen_at = now;
    submission_count = 1;
    status = pending;
    resolved_at = none;
    resolved_by_source = none;
    reason = some reason;
    contradicting_memory_id = against;
    author_id = some author;
  }

  abbrev pub deduped : Written P (ℕ × ℕ) → Written P (Option (ℕ × Bool))
  deduped (ok (d, db)) = ok (some (d.0, ltb 1 d.1), db)
  deduped (err e) = err e

  abbrev pub propose_on :
      (now fresh : ℕ)
      → P
      → (author : ℕ) → Text
      → Option ℕ
      → Db P
      → Option (FactRow P)
      → Written P (Option (ℕ × Bool))
  propose_on now fresh payload author reason against db none = ok (none, db)
  propose_on now fresh payload author reason against db (some f) =
      deduped (file_dissent (proposal now fresh f payload author reason against) db)

  unfoldable pub propose_dissent :
      (now fresh fact : ℕ)
      → P
      → (author : ℕ) → Text
      → Option ℕ
      → Db P
      → Written P (Option (ℕ × Bool))
  unfolding find_by file_dissent proposal
  propose_dissent now fresh fact payload author reason against db =
      propose_on now fresh payload author reason against db (find_by (live_is fact) db.facts)
