-- ===== src/Store/Mongo.antt =====
-- sdks/typescript/src/store/mongodb-store.ts: the store on one collection of documents.
--
-- A collection is the list of its documents in the order of insertion; `findOne` and `updateOne`
-- take the first document that the filter selects, and `_id` is unique. An operation of the class
-- is one step: an update between the `findOne` and the `updateOne` of `updateTransaction` raises
-- the version, and the second filter asks for the version of the first. A document without
-- `nextCompStepSeq` does not occur, since the inserted ones have it. The order of documents with
-- the same `updatedAt` is left open; `limit(0)` is MongoDB's spelling of no limit.
pub mod Documents
pub mod Numbers
pub mod Valid
pub mod Filters
pub mod Pending
pub mod Versions
pub mod Refines
use dfsm.Prelude.{
  ℕ, zero, suc, ◌+◌, String, min, Bool, true, false, not, ◌&&◌, Option, none, some, List, [], ◌∷◌,
  ◌++◌, map, ◌==◌, eqb, leb, length, take, drop, filter, if◌then◌else◌,
}
use dfsm.Prelude.Dict.{includes}
use dfsm.Errors.{error, stale_transaction_version_error, raised, Result, ok, threw}
use dfsm.Store.{Transaction, Compensation, CompensationEntry, Snapshot, Patch, QueryFilter, Summary}
use dfsm.Store.Sqlite.{patched, numbered, sort_desc, is_uncompensated}
use dfsm.Store.Sqlite.Queries.{
  TieOrder, comes_first, text_clause, in_clause, names_of, until_clause, state_clause, status_name,
  is_running,
}

-- `MongoTransactionDocument`: the fields of the transaction and the two of its compensations
pub record Document (V : Type 0) : Type 0 where
  pub transaction : Transaction V
  pub next_comp_step_seq : ℕ
  pub compensation_stack : List (CompensationEntry V)

-- `maxUpdated`
abbrev pub max_updated : Option ℕ → Option ℕ → Option ℕ
max_updated (some stuck) (some older) = some (min stuck older)
max_updated (some stuck) none = some stuck
max_updated none older = older

module _ {V : Type 0} where
  -- `findOne`
  abbrev pub find_one : (Document V → Bool) → List (Document V) → Option (Document V)
  find_one q [] = none
  find_one q (d ∷ ds) = if q d then some d else find_one q ds

  -- `updateOne`
  abbrev pub update_one :
      (Document V → Bool) → (Document V → Document V) → List (Document V) → List (Document V)
  update_one q f [] = []
  update_one q f (d ∷ ds) = if q d then f d ∷ ds else d ∷ update_one q f ds

  -- `{ _id: transactionId }`
  abbrev pub has_id : String → Document V → Bool
  has_id id d = d.transaction.transaction_id == id

  -- `{ _id: transactionId, version: expectedVersion }`
  abbrev pub has_version : String → ℕ → Document V → Bool
  has_version id v d = has_id id d && eqb d.transaction.version v

  abbrev pub new_document : Transaction V → Document V
  new_document t = record { transaction = t; next_comp_step_seq = 1; compensation_stack = [] }

  -- `insertOne` throws for an `_id` that is there.
  unfoldable pub create_transaction :
      Transaction V → List (Document V) → Result (Unit {0}) × List (Document V)
  create_transaction t docs = elim (find_one (has_id t.transaction_id) docs) [
    | some other ↦ (threw (raised (error "E11000 duplicate key error")), docs)
    | none ↦ (ok tt, docs ++ new_document t ∷ [])
  ]

  unfoldable pub get_transaction : String → List (Document V) → Option (Snapshot V)
  get_transaction id docs = elim (find_one (has_id id) docs) [
    | none ↦ none
    | some d ↦ some (record {
      transaction = d.transaction;
      compensation_stack = sort_desc d.compensation_stack;
    })
  ]

  -- `baseSeq`, read only where compensations are appended
  abbrev pub base_seq : String → ℕ → List (Compensation V) → List (Document V) → Result ℕ
  base_seq id v [] docs = ok 1
  base_seq id v (c ∷ cs) docs = elim (find_one (has_version id v) docs) [
    | none ↦ threw (raised (stale_transaction_version_error id v))
    | some existing ↦ ok existing.next_comp_step_seq
  ]

  -- `updateOp`: `$set`, and `$push` where compensations are appended
  unfoldable pub update_op :
      String → ℕ → Patch V → List (Compensation V) → ℕ → Document V → Document V
  unfolding numbered
  update_op id v p [] base d = record d { transaction = patched (suc v) p d.transaction }
  update_op id v p (c ∷ cs) base d = record {
    transaction = patched (suc v) p d.transaction;
    next_comp_step_seq = base + length (c ∷ cs);
    compensation_stack = d.compensation_stack ++ numbered id base (c ∷ cs);
  }

  -- the `updateOne`, with its `matchedCount`
  abbrev pub update_at :
      String
      → ℕ
      → Patch V
      → List (Compensation V)
      → List (Document V)
      → ℕ
      → Result ℕ × List (Document V)
  update_at id v p appended docs base = elim (find_one (has_version id v) docs) [
    | none ↦ (threw (raised (stale_transaction_version_error id v)), docs)
    | some matched ↦
        (ok (suc v), update_one (has_version id v) (update_op id v p appended base) docs)
  ]

  unfoldable pub update_transaction :
      String
      → ℕ
      → Patch V
      → List (Compensation V)
      → List (Document V)
      → Result ℕ × List (Document V)
  update_transaction id v p appended docs = elim (base_seq id v appended docs) [
    | threw e ↦ (threw e, docs)
    | ok base ↦ update_at id v p appended docs base
  ]

  unfoldable pub get_uncompensated_stack : String → List (Document V) → List (CompensationEntry V)
  get_uncompensated_stack id docs = elim (find_one (has_id id) docs) [
    | none ↦ []
    | some d ↦ sort_desc (filter is_uncompensated d.compensation_stack)
  ]

  -- `{ "compensationStack.stepSeq": stepSeq }`
  abbrev pub has_seq : ℕ → List (CompensationEntry V) → Bool
  has_seq seq [] = false
  has_seq seq (e ∷ es) = if eqb e.step_seq seq then true else has_seq seq es

  -- `$set` at the positional operator `$`: the first element that the filter found
  abbrev pub mark_first : ℕ → ℕ → List (CompensationEntry V) → List (CompensationEntry V)
  mark_first seq at [] = []
  mark_first seq at (e ∷ es) =
      if eqb e.step_seq seq
      then record e { entry = record e.entry { compensated_at = some at } } ∷ es
      else e ∷ mark_first seq at es

  abbrev pub mark_op : ℕ → ℕ → Document V → Document V
  mark_op seq at d = record d { compensation_stack = mark_first seq at d.compensation_stack }

  unfoldable pub mark_compensation_executed : String → ℕ → ℕ → List (Document V) → List (Document V)
  mark_compensation_executed id seq at docs =
      update_one (λ d. has_id id d && has_seq seq d.compensation_stack) (mark_op seq at) docs

  -- `buildMongoFilter`
  abbrev pub build_mongo_filter : Option QueryFilter → Document V → Bool
  build_mongo_filter none d = true
  build_mongo_filter (some f) d =
      let t = d.transaction in
      text_clause f.machine_id t.machine_id
      && (text_clause f.actor_id t.actor_id
          && (in_clause f.transaction_ids t.transaction_id
              && (in_clause (names_of f.statuses) (status_name t.status)
                  && (until_clause (max_updated f.stuck_before_timestamp f.older_than_timestamp)
                        t.updated_at
                      && state_clause f.state_equals t.state_value))))

  unfoldable pub count_transactions : Option QueryFilter → List (Document V) → ℕ
  count_transactions f docs = length (filter (build_mongo_filter f) docs)

  -- `sort({ updatedAt: 1 })`
  abbrev pub insert_document : TieOrder V → Document V → List (Document V) → List (Document V)
  insert_document ties d [] = d ∷ []
  insert_document ties d (e ∷ es) =
      if comes_first ties d.transaction e.transaction
      then d ∷ e ∷ es
      else e ∷ insert_document ties d es

  abbrev pub sort_documents : TieOrder V → List (Document V) → List (Document V)
  sort_documents ties [] = []
  sort_documents ties (d ∷ ds) = insert_document ties d (sort_documents ties ds)

  abbrev pub skip_documents : Option ℕ → List (Document V) → List (Document V)
  skip_documents none ds = ds
  skip_documents (some n) ds = drop n ds

  abbrev pub limit_documents : Option ℕ → List (Document V) → List (Document V)
  limit_documents none ds = ds
  limit_documents (some zero) ds = ds
  limit_documents (some (suc n)) ds = take (suc n) ds

  abbrev pub document_summary : ℕ → ℕ → Document V → Summary V
  document_summary now stuck_threshold_ms d =
      let t = d.transaction in
      record {
        transaction_id = t.transaction_id;
        machine_id = t.machine_id;
        actor_id = t.actor_id;
        state_value = t.state_value;
        status = t.status;
        context = t.context;
        is_stuck = is_running t.status && leb (t.updated_at + stuck_threshold_ms) now;
        active_step = t.active_step;
        compensation_depth = length (filter is_uncompensated d.compensation_stack);
        version = t.version;
        created_at = t.created_at;
        updated_at = t.updated_at;
      }

  abbrev pub window : Option QueryFilter → List (Document V) → List (Document V)
  window none ds = ds
  window (some f) ds = limit_documents f.limit (skip_documents f.offset ds)

  unfoldable pub query_transactions :
      TieOrder V → Option QueryFilter → ℕ → ℕ → List (Document V) → Result (List (Summary V))
  query_transactions ties f now stuck_threshold_ms docs = ok (
      map (document_summary now stuck_threshold_ms)
        (window f (sort_documents ties (filter (build_mongo_filter f) docs))))

  -- `deleteMany`, not asked for no ids
  unfoldable pub delete_transactions : List String → List (Document V) → ℕ × List (Document V)
  delete_transactions [] docs = (0, docs)
  delete_transactions (id ∷ ids) docs =
      let named = λ (d : Document V). includes d.transaction.transaction_id (id ∷ ids) in
      (length (filter named docs), filter (λ d. not (named d)) docs)
