-- ===== src/Storage/Ingress/Sound/Accept.antt =====
-- `try_accept` of storage/ingress.py keeps the state sound.
use crytpo_data.Shared.{
  ℕ, ◌≡◌, sym, ap, ◌∙◌, inl, inr, ◌||◌, not, String, str_eq, is_stripped, Result, ok,
  contract_error, value_error, raise_if, lookup, string_eq, pair_eq, nat_eq, Bool-cases,
  Result-cases, >>=-eq-ok, >>-eq-ok, ok-injective,
}
use crytpo_data.Domain.Envelope.{SourceContext, NativeEventDraft, construct_envelope}
use crytpo_data.Storage.Resident.{CapacityClass, integer, normal, control}
use crytpo_data.Storage.Record.{AcceptedRecord, check_record, AcceptedRecordIdentity, EnqueueResult}
use crytpo_data.Storage.Ingress.{Outside, RawIngress, nonempty, sequence_key, sequence_key_eq}
use crytpo_data.Storage.Ingress.Accept.{
  Candidate, candidate, build_candidate, next_sequence, try_accept, overflow_result, overflowed,
  classify, validate_class_shard, validate_source, is_bound_elsewhere, encode_trusted,
}
use crytpo_data.Storage.Association.{resolve_control_association}
use crytpo_data.Storage.Ingress.Outcome.{Outcome, raised, full, entry, make_entry-Outcome}
use crytpo_data.Storage.Ingress.Sound.{IsSound, entry-IsSound}

-- The identity of a candidate has the next ordinal.
build_candidate-next :
    (out : Outside) (d : NativeEventDraft) (source : SourceContext)
    (time_ns monotonic_ns sequence ordinal : ℕ) (i : RawIngress) (r : AcceptedRecord)
    (a : AcceptedRecordIdentity)
    → build_candidate out d source time_ns monotonic_ns sequence ordinal i ≡ ok (r, a)
    → a.acceptance_ordinal ≡ ordinal
unfolding build_candidate
build_candidate-next out d source time_ns monotonic_ns sequence ordinal i r a h =
    let (received, _, h1) = >>=-eq-ok (integer time_ns) _ h in
    let (monotonic, _, h2) = >>=-eq-ok (integer monotonic_ns) _ h1 in
    let e =
      construct_envelope d received monotonic i.worker_instance_id source sequence
        i.config_sha256 in
    let (bytes, _, h3) = >>=-eq-ok (encode_trusted out e) _ h2 in
    let (_, h4) = >>-eq-ok (check_record (record { envelope = e; encoded_jsonl = bytes })) _ h3 in
    ap (λ (p : AcceptedRecord × AcceptedRecordIdentity). p.1.acceptance_ordinal)
      (sym (ok-injective h4))

pub nonempty-same : (shard s : String) → nonempty shard ≡ ok s → s ≡ shard
nonempty-same shard s h = sym (
    ok-injective
      (>>-eq-ok (raise_if (str_eq shard "" || not (is_stripped shard)) value_error) (ok shard) h).1)

-- A candidate is for the shard that was named, and has the next ordinal.
pub candidate-next :
    (out : Outside) (d : NativeEventDraft) (source : SourceContext) (shard : String)
    (time_ns monotonic_ns : ℕ) (i : RawIngress) (c : Candidate)
    → candidate out d source shard time_ns monotonic_ns i ≡ ok c
    → (c.shard ≡ shard) × (c.identity.acceptance_ordinal ≡ i.next_acceptance_ordinal)
unfolding candidate
candidate-next out d source shard time_ns monotonic_ns i c h =
    let (s, name, h1) = >>=-eq-ok (nonempty shard) _ h in
    let ((class, validated), _, h2) = >>=-eq-ok (classify d) _ h1 in
    let (_, h3) = >>-eq-ok (validate_class_shard class s) _ h2 in
    let (_, h4) = >>-eq-ok (validate_source d source) _ h3 in
    let key = sequence_key d in
    let (_, h5) =
      >>-eq-ok (raise_if (is_bound_elsewhere s (lookup key i.shard_by_sequence_key)) contract_error)
        _ h4 in
    let ((r, a), built, h6) =
      >>=-eq-ok
        (build_candidate out d source time_ns monotonic_ns (next_sequence key i)
          i.next_acceptance_ordinal i)
        _ h5 in
    let (_, _, h7) = >>=-eq-ok (resolve_control_association out.resolver validated a) _ h6 in
    (
      ap (λ (c : Candidate). c.shard) (sym (ok-injective h7)) ∙ nonempty-same shard s name,
      ap (λ (c : Candidate). c.identity.acceptance_ordinal) (sym (ok-injective h7))
          ∙ build_candidate-next out d source time_ns monotonic_ns _ _ i r a built,
    )

overflow-IsSound :
    (class : CapacityClass) (i : RawIngress) → IsSound i → IsSound (overflow_result class i).1
unfolding overflowed
overflow-IsSound normal i v = record {
  balanced = v.balanced;
  charged = v.charged;
  short = v.short;
  light = v.light;
  numbered = v.numbered;
}
overflow-IsSound control i v = record {
  balanced = v.balanced;
  charged = v.charged;
  short = v.short;
  light = v.light;
  numbered = v.numbered;
}

Outcome-IsSound :
    {c : Candidate} {i : RawIngress} {o : Result EnqueueResult × RawIngress}
    → Outcome c i o
    → c.identity.acceptance_ordinal ≡ i.next_acceptance_ordinal
    → IsSound i
    → IsSound o.1
Outcome-IsSound (raised e) numbered v = v
Outcome-IsSound {c} {i} full numbered v = overflow-IsSound c.capacity_class i v
Outcome-IsSound {c} {i} (entry b h short light) numbered v =
    entry-IsSound c i b v h numbered short light

pub try_accept-IsSound :
    (out : Outside) (d : NativeEventDraft) (source : SourceContext) (shard : String)
    (time_ns monotonic_ns : ℕ) (i : RawIngress)
    → IsSound i
    → IsSound (try_accept out d source shard time_ns monotonic_ns i).1
unfolding try_accept
try_accept-IsSound out d source shard time_ns monotonic_ns i v = elim (Bool-cases i.superseded) [
  | inl over ↦ simp (over, try_accept) v
  | inr going ↦ elim (Result-cases (candidate out d source shard time_ns monotonic_ns i)) [
    | inl (e, bad) ↦ simp (going, bad, try_accept) v
    | inr (c, good) ↦
        simp (going, good, try_accept)
          (Outcome-IsSound (make_entry-Outcome c i)
            (candidate-next out d source shard time_ns monotonic_ns i c good).1 v)
  ]
]
