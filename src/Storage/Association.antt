-- ===== src/Storage/Association.antt =====
-- `_resolve_control_association` of storage/ingress.py: what the resolver of associations may answer
-- for a control draft. The resolver is given to the ingress and may raise.
use crytpo_data.Shared.{
  ℕ, zero, suc, Bool, false, ◌||◌, not, Option, none, some, List, [], ◌∷◌, String, str_eq, ◌==◌,
  if◌then◌else◌, length, map, sort_by, texts_leb, list_beq, split_slashes, Result, ok, err,
  contract_error, assertion_error, ◌>>=◌, ◌>>◌, raise_if, string_eq, list_eq,
}
use crytpo_data.Domain.Types.{exchange_value, market_value}
use crytpo_data.Domain.Paths.{encode_instrument_key}
use crytpo_data.Domain.Envelope.{is_none}
use crytpo_data.Storage.Control.{
  StorageLogicalTarget, StorageControlRequest, ValidatedControlDraft, StorageControlTarget,
  StorageControlAssociation,
}
use crytpo_data.Storage.Record.{AcceptedRecordIdentity}

abbrev pub Resolver : Type 0
Resolver =
    ValidatedControlDraft → AcceptedRecordIdentity → Result (Option StorageControlAssociation)

-- The part of a path that stands for the instrument.
unfoldable scope_of : Option String → Result String
unfolding encode_instrument_key
scope_of none = ok "_market"
scope_of (some key) = encode_instrument_key key

-- `_logical_target_path_prefix`
unfoldable pub target_path_prefix :
    (exchange : String) → StorageLogicalTarget → Result (List String)
unfolding scope_of
target_path_prefix exchange t =
    if str_eq t.logical_stream "_control"
    then ok ("raw" ∷ exchange ∷ "_control" ∷ [])
    else elim t.market [
      | none ↦ err assertion_error
      | some market ↦ scope_of t.instrument_key >>= λ scope.
          ok ("raw" ∷ exchange ∷ market_value market ∷ scope ∷ t.logical_stream ∷ [])
    ]

abbrev pub first_parts : ℕ → List String → List String
first_parts zero _ = []
first_parts (suc n) [] = []
first_parts (suc n) (x ∷ xs) = x ∷ first_parts n xs

abbrev is_control_path : List String → Bool
is_control_path (_ ∷ _ ∷ third ∷ _) = str_eq third "_control"
is_control_path _ = false

-- `_association_path_prefix`
unfoldable pub association_path_prefix : String → List String
association_path_prefix path =
    let parts = split_slashes path in
    if is_control_path parts then first_parts 3 parts else first_parts 5 parts

abbrev prefixes_of : (exchange : String) → List StorageLogicalTarget → Result (List (List String))
prefixes_of exchange [] = ok []
prefixes_of exchange (t ∷ ts) =
    target_path_prefix exchange t >>= λ p. (prefixes_of exchange ts >>= λ ps. ok (p ∷ ps))

-- The rules on the answer to a request.
unfoldable pub check_requested :
    AcceptedRecordIdentity → StorageControlRequest → StorageControlAssociation → Result (Unit {0})
unfolding target_path_prefix association_path_prefix
check_requested identity request a = do
  raise_if (not (str_eq a.control_event_id request.control_event_id)) contract_error
  raise_if (not (length a.targets == length request.target_logical_identities)) contract_error
  expected ← prefixes_of (exchange_value identity.exchange) request.target_logical_identities
  let observed =
      map (λ (t : StorageControlTarget). association_path_prefix t.data_relative_path) a.targets
  raise_if (not (list_beq (sort_by texts_leb observed) (sort_by texts_leb expected))) contract_error

unfoldable pub check_association :
    ValidatedControlDraft → AcceptedRecordIdentity → StorageControlAssociation → Result (Unit {0})
unfolding check_requested
check_association control identity a = do
  raise_if
      (not (str_eq a.control_kind control.control_kind)
        || (not (a.acceptance_ordinal == identity.acceptance_ordinal)
            || not (a.config_generation == identity.config_generation)))
      contract_error
  elim control.association_request [
    | none ↦ ok tt
    | some request ↦ check_requested identity request a
  ]

-- What the resolver answered.
unfoldable pub check_answer :
    ValidatedControlDraft
    → AcceptedRecordIdentity
    → Option StorageControlAssociation
    → Result (Option StorageControlAssociation)
unfolding check_association
check_answer control identity none =
    raise_if (not (is_none control.association_request)) contract_error >> ok none
check_answer control identity (some a) = check_association control identity a >> ok (some a)

-- `_resolve_control_association`
unfoldable pub resolve_control_association :
    Option Resolver
    → Option ValidatedControlDraft
    → AcceptedRecordIdentity
    → Result (Option StorageControlAssociation)
unfolding check_answer
resolve_control_association resolver none identity = ok none
resolve_control_association none (some control) identity =
    raise_if (not (is_none control.association_request)) contract_error >> ok none
resolve_control_association (some resolver) (some control) identity =
    resolver control identity >>= check_answer control identity
