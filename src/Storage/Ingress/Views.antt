-- ===== src/Storage/Ingress/Views.antt =====
-- The queue and the bytes of each shard, after a change of one of them and after an entry in
-- `RawIngress` of storage/ingress.py.
use crytpo_data.Shared.{
  ℕ, ◌+◌, ◌≡◌, ap, ◌∙◌, List, [], ◌∷◌, ◌++◌, String, str_eq, if◌then◌else◌, Dict, lookup, insert,
  string_eq, lookup-insert, ap-if,
}
use crytpo_data.Storage.Resident.{ResidentBudget}
use crytpo_data.Storage.Record.{EnqueueResult}
use crytpo_data.Storage.Ingress.{RawIngress, or_no_queue, queue_of, or_no_bytes, bytes_of}
use crytpo_data.Storage.Ingress.Accept.{Candidate, entered, status_at, result_of}
use crytpo_data.Storage.Ingress.Outcome.{with_budget, entry_at}

pub queue-insert :
    (shard s : String) (q : List EnqueueResult) (d : Dict String (List EnqueueResult))
    → or_no_queue (lookup shard (insert s q d))
      ≡ (if str_eq shard s then q else or_no_queue (lookup shard d))
queue-insert shard s q d =
    ap or_no_queue (lookup-insert shard s q d) ∙ ap-if or_no_queue (str_eq shard s) _ _

pub bytes-insert :
    (shard s : String) (n : ℕ) (d : Dict String ℕ)
    → or_no_bytes (lookup shard (insert s n d))
      ≡ (if str_eq shard s then n else or_no_bytes (lookup shard d))
bytes-insert shard s n d =
    ap or_no_bytes (lookup-insert shard s n d) ∙ ap-if or_no_bytes (str_eq shard s) _ _

module _ (c : Candidate) (i : RawIngress) (b : ResidentBudget) where
  abbrev pub entry_result : EnqueueResult
  entry_result = result_of c (status_at (with_budget b i))

  pub entry-queue :
      (shard : String)
      → queue_of shard (entry_at c i b).1 ≡ (
          if str_eq shard c.shard
          then queue_of c.shard i ++ entry_result ∷ []
          else queue_of shard i)
  unfolding entered
  entry-queue shard = queue-insert shard c.shard (queue_of c.shard i ++ entry_result ∷ []) i.queues

  pub entry-bytes :
      (shard : String)
      → bytes_of shard (entry_at c i b).1
        ≡ (if str_eq shard c.shard then bytes_of c.shard i + c.charge_bytes else bytes_of shard i)
  unfolding entered
  entry-bytes shard =
      bytes-insert shard c.shard (bytes_of c.shard i + c.charge_bytes) i.queued_bytes
