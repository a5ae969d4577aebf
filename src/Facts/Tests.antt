-- ===== src/Facts/Tests.antt =====
-- Writes to a small store: a fact, a write of an agent that is diverted, a proposal of the same, a
-- promotion, a deletion.
use klams.Common.{
  ℕ, ◌≡◌, refl, true, false, Option, none, some, List, [], ◌∷◌, arith, Text, text_eq, ok, err, All,
}
use klams.Decay.{FactType, env_fact}
use klams.Facts.{
  Db, FactRow, user, agent_proposal, controller, gone, after, find_by, type_eq, fact_key_is,
  find_fact,
}
use klams.Facts.Write.{
  UpsertFact, upsert_fact_v2, soft_delete_fact, restore_fact, persisted, conflicted, dissented,
  live_is, deleted, undeleted,
}
use klams.Facts.Dissents.{promote_dissent, discard_dissent, propose_dissent}
use klams.Facts.Trust.{Allowed, Still, upsert_fact_v2-trust}
use klams.Facts.Counts.{Consistent}
use klams.Facts.Calls.{
  Call, upsert, propose, promote, discard, soft_delete, restore, run, run-Consistent,
}
use klams.Facts.Promotion.{Promoted, promote_dissent-Promoted}
use klams.Facts.Deletion.{restore-soft_delete_fact, upsert_fact_v2-hidden}
use klams.Facts.Hashes.{Hashed, upsert_fact_v2-Hashed}

-- Payloads are numbers, and are their own hashes.
abbrev hash : FactType → ℕ → Text
hash t p = p ∷ []

abbrev start : Db ℕ
start = record { facts = []; dissents = []; authors = 1 ∷ [] }

abbrev request : UpsertFact ℕ
request = record {
  fact_type = env_fact;
  payload = 70;
  source = user;
  explicit_id = none;
  expected_version = none;
  author_id = 1;
}

abbrev of_agent : UpsertFact ℕ
of_agent = record request { payload = 71; source = agent_proposal; explicit_id = some 100 }

abbrev fact : FactRow ℕ
fact = record {
  id = 100;
  fact_type = env_fact;
  payload = 70;
  payload_hash = 70 ∷ [];
  version = 1;
  source = user;
  dissent_count = 0;
  author_id = 1;
  updated_at = 5;
  deleted_at = none;
  deleted_by_author_id = none;
}

abbrev one : Db ℕ
one = record start { facts = fact ∷ [] }

abbrev two : Db ℕ
unfolding upsert_fact_v2
two = after one (upsert_fact_v2 hash 6 101 of_agent one)

abbrev amended_fact : FactRow ℕ
amended_fact = record fact {
  payload = 71;
  payload_hash = 71 ∷ [];
  version = 2;
  source = controller;
  dissent_count = 1;
  updated_at = 8;
}

abbrev three : Db ℕ
unfolding promote_dissent
three = after two (promote_dissent 8 101 controller 1 two)

abbrev gone_fact : Db ℕ
gone_fact = record start { facts = deleted 7 1 fact ∷ [] }

first_write : upsert_fact_v2 hash 5 100 request start ≡ ok (persisted fact, one)
unfolding upsert_fact_v2 text_eq
first_write = refl

diverted_write : upsert_fact_v2 hash 6 101 of_agent one ≡ ok (dissented 101 100, two)
unfolding upsert_fact_v2 text_eq
diverted_write = refl

same_write :
    upsert_fact_v2 hash 6 101 (record request { expected_version = some 4 }) one
    ≡ ok (conflicted 1 100, one)
unfolding upsert_fact_v2 text_eq
same_write = refl

promotion : promote_dissent 8 101 controller 1 two ≡ ok (amended_fact, three)
unfolding upsert_fact_v2 promote_dissent text_eq
promotion = refl

too_late : discard_dissent 9 101 controller three ≡ err gone
unfolding upsert_fact_v2 promote_dissent discard_dissent text_eq
too_late = refl

abbrev proposed : Db ℕ
unfolding propose_dissent
proposed = after one (propose_dissent hash 6 101 100 71 1 (9 ∷ []) none one)

proposal_lem :
    propose_dissent hash 6 101 100 71 1 (9 ∷ []) none one ≡ ok (some (101, false), proposed)
unfolding propose_dissent text_eq
proposal_lem = refl

fact_there : find_fact 100 one ≡ some fact
unfolding find_fact find_by
fact_there = refl

start-Consistent : Consistent start
start-Consistent = record { counted = tt; single = λ f h. omega arith; linked = tt; settled = tt }

upsert_fact_v2-trust_example :
    Still 100 fact (Allowed of_agent 100 fact) (after one (upsert_fact_v2 hash 6 101 of_agent one))
upsert_fact_v2-trust_example = upsert_fact_v2-trust hash 6 101 of_agent one 100 fact fact_there

abbrev history : List (Call ℕ)
history =
    upsert 5 100 request
    ∷ upsert 6 101 of_agent
    ∷ propose 7 102 100 71 1 (9 ∷ []) none
    ∷ promote 8 101 controller 1
    ∷ soft_delete 9 100 1
    ∷ restore 100
    ∷ discard 10 101 user
    ∷ []

run-Consistent_example : Consistent (run hash start history)
run-Consistent_example = run-Consistent hash history start start-Consistent

promote_dissent-Promoted_example : Promoted 101 controller 1 two amended_fact three
promote_dissent-Promoted_example =
    promote_dissent-Promoted 8 101 controller 1 two three amended_fact promotion

restore-soft_delete_fact_example :
    (db : Db ℕ) × (soft_delete_fact 7 100 1 one ≡ ok (true, db))
    × (find_fact 100 db ≡ some (deleted 7 1 fact))
    × ((now fresh : ℕ) (payload author : ℕ) (reason : Text) (against : Option ℕ)
        → propose_dissent hash now fresh 100 payload author reason against db ≡ ok (none, db))
    × (db' : Db ℕ) × (restore_fact 100 db ≡ ok (true, db'))
    × (find_fact 100 db' ≡ some (undeleted fact))
restore-soft_delete_fact_example =
    restore-soft_delete_fact hash 7 100 1 fact one fact_there refl refl

same_hash : find_by (fact_key_is env_fact (70 ∷ [])) gone_fact.facts ≡ some (deleted 7 1 fact)
unfolding find_by type_eq text_eq
same_hash = refl

none_live : find_by (live_is 100) gone_fact.facts ≡ none
unfolding find_by
none_live = refl

upsert_fact_v2-hidden_example :
    (g : FactRow ℕ) × (db : Db ℕ) × (upsert_fact_v2 hash 8 102 request gone_fact
      ≡ ok (persisted g, db))
    × (g.id ≡ 100)
    × (g.deleted_at ≡ some 7)
    × (find_by (live_is 100) db.facts ≡ none)
upsert_fact_v2-hidden_example =
    upsert_fact_v2-hidden hash 8 102 request (deleted 7 1 fact) gone_fact same_hash none_live refl

upsert_fact_v2-Hashed_example :
    All (Hashed hash) (after one (upsert_fact_v2 hash 6 101 of_agent one)).facts
upsert_fact_v2-Hashed_example =
    upsert_fact_v2-Hashed hash 6 101 of_agent one (refl, tt) ((λ e. refl), tt)
