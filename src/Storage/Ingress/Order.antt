-- ===== src/Storage/Ingress/Order.antt =====
-- What a call of `RawIngress` in storage/ingress.py puts into a queue and takes from one, as events.
pub mod Tried
pub mod Fifo
pub mod Ordinals
use crytpo_data.Shared.{
  Bool, true, false, Option, none, some, List, [], ◌∷◌, ◌++◌, String, str_eq, if◌then◌else◌, Result,
  ok, err,
}
use crytpo_data.Storage.Record.{EnqueueResult, is_accepted}
use crytpo_data.Storage.Ingress.{RawIngress}
use crytpo_data.Storage.Ingress.Accept.{try_accept}
use crytpo_data.Storage.Ingress.Drain.{drain_one}
use crytpo_data.Storage.Ingress.Sound.Calls.{
  Step, accepting, draining, taking, releasing, superseding, replacing, Reach, here, next,
}

pub data Event : Type 0 where
  put got : (shard : String) → EnqueueResult → Event

abbrev pub accept_events : (shard : String) → Result EnqueueResult → List Event
accept_events shard (err _) = []
accept_events shard (ok r) = if is_accepted r.status then put shard r ∷ [] else []

abbrev pub drain_events : (shard : String) → Result (Option EnqueueResult) → List Event
drain_events shard (ok (some r)) = got shard r ∷ []
drain_events shard (ok none) = []
drain_events shard (err _) = []

-- The events of a call, by what it returns, and those of calls one after another.
abbrev pub events : {i j : RawIngress} → Step i j → List Event
events (accepting out d source shard time_ns monotonic_ns i) =
    accept_events shard (try_accept out d source shard time_ns monotonic_ns i).0
events (draining shard i) = drain_events shard (drain_one shard i).0
events (taking a i) = []
events (releasing key i others) = []
events (superseding sha256 generation i) = []
events (replacing sha256 generation i new h) = []

abbrev pub log : {i j : RawIngress} → Reach i j → List Event
log here = []
log (next r s) = log r ++ events s

-- What a shard got, and what was taken from it, in order.
abbrev pub puts : (shard : String) → List Event → List EnqueueResult
puts shard [] = []
puts shard (put s r ∷ es) = let rest = puts shard es in if str_eq shard s then r ∷ rest else rest
puts shard (got s r ∷ es) = puts shard es

abbrev pub gots : (shard : String) → List Event → List EnqueueResult
gots shard [] = []
gots shard (put s r ∷ es) = gots shard es
gots shard (got s r ∷ es) = let rest = gots shard es in if str_eq shard s then r ∷ rest else rest
