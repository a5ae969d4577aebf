-- ===== src/Search/Logs.antt =====
-- crates/klams-core/src/retrieval.rs: what a search leaves in the miss log and in the sample log, and
-- `search` with these. Both are written in the background; whether the store keeps them is not seen.
use klams.Common.{
  ℕ, ◌-◌, ◌^◌, min, Bool, ◌||◌, Option, none, some, List, [], ◌∷◌, ◌++◌, if◌then◌else◌, ◌==◌,
  is_empty, length, Result, ok, err, Text, codes, trim, unwrap_or,
}
use klams.Floats.{F32, or_equal, is_greater}
use klams.Rerank.{MemoryKind, fact, event, knowledge}
use klams.Search.{kind}
use klams.Search.Weights.{is_lt, hundredths}
use klams.Search.Store.{Store, RetrievalError, then_ok}
use klams.Search.Knowledge.{KnowledgeCandidates}
use klams.Search.Pipeline.{
  SourceTolerance, SearchParams, RetrievalConfig, SearchOutcome, all_kinds, no_tags, Entry, Row,
  tagged,
}
use klams.Search.Run.{validated, arms, prepared, finished}

-- `i32::try_from(n).unwrap_or(i32::MAX)`
abbrev pub as_i32 : ℕ → ℕ
as_i32 n = min n (2 ^ 31 - 1)

abbrev pub kind_label : MemoryKind → Text
kind_label fact = codes "fact"
kind_label knowledge = codes "knowledge"
kind_label event = codes "event"

abbrev pub kinds_label : List MemoryKind → Text
kinds_label [] = []
kinds_label (k ∷ []) = kind_label k
kinds_label (k ∷ l ∷ ks) = kind_label k ++ (codes "," ++ kinds_label (l ∷ ks))

abbrev pub caller_label : Option Text → Text
caller_label none = codes "unknown"
caller_label (some c) = if is_empty (trim c) then codes "unknown" else c

module _ (f : F32) where
  pub record SearchMiss : Type 0 where
    pub query : Text
    pub caller : Text
    pub reason : Text
    pub top_score : Option f.Float
    pub hit_count : ℕ
    pub kinds : Text

  pub record SearchSample : Type 0 where
    pub query : Text
    pub caller : Text
    pub top_raw_score : Option f.Float
    pub top_kind : Option Text
    pub hit_count : ℕ
    pub kinds : Text
    pub duplicates_collapsed : ℕ

  pub record Logs : Type 0 where
    pub miss : Option SearchMiss
    pub sample : SearchSample

  abbrev pub Top : Type 0
  Top = Option (f.Float × MemoryKind)

  -- The last of the entries with the greatest raw score.
  abbrev pub best : Entry f → List (Entry f) → Entry f
  best b [] = b
  best b (e ∷ es) = best (if is_greater (or_equal (f.partial_cmp b.score e.score)) then b else e) es

  abbrev pub raw_top : List (Entry f) → Top
  raw_top [] = none
  raw_top (e ∷ es) = let b = best e es in some (b.score, kind b.mem)

  abbrev pub low_score : f.Float → MemoryKind → Option Text
  low_score score knowledge =
      if is_lt (f.partial_cmp score (hundredths f 45)) then some (codes "low_score") else none
  low_score score fact = none
  low_score score event = none

  abbrev pub low_top : Top → Option Text
  low_top none = none
  low_top (some (score, k)) = low_score score k

  unfoldable pub classify_miss : ℕ → Top → Option Text
  classify_miss hit_count top = if hit_count == 0 then some (codes "zero_hit") else low_top top

  abbrev pub top_score : Top → Option f.Float
  top_score none = none
  top_score (some t) = some t.0

  abbrev pub top_kind : Top → Option Text
  top_kind none = none
  top_kind (some t) = some (kind_label t.1)

  abbrev pub missed : (query caller kinds : Text) → ℕ → Top → Option Text → Option SearchMiss
  missed query caller kinds hit_count top none = none
  missed query caller kinds hit_count top (some reason) = some (record {
    query = query;
    caller = caller;
    reason = reason;
    top_score = top_score top;
    hit_count = as_i32 hit_count;
    kinds = kinds;
  })

  module _ (s : Store f) (powf : f.Float → f.Float → f.Float) (seconds_since : ℕ → f.Float)
      (into_values : List (Row f) → List (Row f)) (config : RetrievalConfig f) where
    abbrev pub logs :
        SearchParams → Option Text → Text → KnowledgeCandidates f → List (Entry f) → Logs
    logs params caller query k texts =
        let before_collapse = length (tagged f (no_tags params.tags) (k.scored ++ texts)) in
        let scored = prepared f s powf seconds_since into_values config params k texts in
        let hit_count = length scored in
        let top = raw_top scored in
        let kinds = kinds_label (unwrap_or params.kinds all_kinds) in
        record {
          miss =
              missed query (caller_label caller) kinds hit_count top (classify_miss hit_count top);
          sample = record {
            query = query;
            caller = caller_label caller;
            top_raw_score = top_score top;
            top_kind = top_kind top;
            hit_count = as_i32 hit_count;
            kinds = kinds;
            duplicates_collapsed = as_i32 (before_collapse - hit_count);
          };
        }

    abbrev pub with_logs : Option (SearchOutcome f) → Logs → Option (SearchOutcome f × Logs)
    with_logs none l = none
    with_logs (some out) l = some (out, l)

    abbrev pub run_logged :
        SearchParams
        → Option Text
        → Text
        → ℕ
        → Result RetrievalError ((KnowledgeCandidates f × Bool) × (List (Entry f) × Bool))
        → Result RetrievalError (Option (SearchOutcome f × Logs))
    run_logged params caller query top_k (err e) = err e
    run_logged params caller query top_k (ok ((k, u), (texts, v))) = ok (
        with_logs
          (finished f s powf seconds_since into_values config params query top_k k texts (u || v))
          (logs params caller query k texts))

    -- The search with what it logs: nothing, if it ends with an error or a panic.
    unfoldable pub search_logged :
        SearchParams
        → SourceTolerance
        → Option Text
        → Result RetrievalError (Option (SearchOutcome f × Logs))
    search_logged params tolerance caller = then_ok (validated params) (λ q.
        run_logged params caller q.0 q.1
          (arms f s powf seconds_since into_values config params tolerance q.0 q.1))
