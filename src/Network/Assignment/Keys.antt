-- ===== src/Network/Assignment/Keys.antt =====
-- The canonical keys of network/assignment.py and their parts.
use Prim.Native.Char.{Char, code}
use Prim.Native.String.{◌++◌}
use Prim.Native.String.append
use Prim.Native.Nat.{compare}
use text.Mathlib.TextEquality.{codes_equal}
use crytpo_data.Shared.{
  ◌≡◌, refl, sym, ap, ◌∙◌, subst, inl, inr, false, ◌||◌, some, List, [], ◌∷◌, ◌++◌ as ◌+++◌, String,
  str_eq, ◌==◌, split_slashes, join_slashes, has_slash, ok, value_error, raise_if, ◌>>◌, arith,
  Bool-cases, >>-eq-ok, ==_iff, ok-injective,
}
use crytpo_data.Network.Assignment.{
  AssignmentKey, split_last, key_of, parse_parts, parse, validate_fixed, from_parts, canonical,
}

slash-append : (b : String) → "/" ++ b ≡ String.◌∷◌ "/" b
slash-append b = append.cons "/" "" b ∙ ap (String.◌∷◌ "/") (append.nil b)

-- A text without slashes is one part.
split-no_slash :
    (a b : String) → has_slash a ≡ false → split_slashes (a ++ "/" ++ b) ≡ a ∷ split_slashes b
split-no_slash String.[] b h = ap split_slashes (append.nil ("/" ++ b) ∙ slash-append b)
split-no_slash (String.◌∷◌ c s) b h =
    let plain : (code c == b'/') ≡ false = ground arith in
    let rest : has_slash s ≡ false = ground arith in
    ap split_slashes (append.cons c s ("/" ++ b)) ∙ rw (plain, split-no_slash s b rest)

split-alone : (a : String) → has_slash a ≡ false → split_slashes a ≡ a ∷ []
split-alone String.[] h = refl
split-alone (String.◌∷◌ c s) h =
    let plain : (code c == b'/') ≡ false = ground arith in
    let rest : has_slash s ≡ false = ground arith in rw (plain, split-alone s rest)

-- The split of a text is a first part and more.
split-cons : (s : String) → (w : String) × (ws : List String) × (split_slashes s ≡ w ∷ ws)
split-cons String.[] = ("", [], refl)
split-cons (String.◌∷◌ c s) = elim (Bool-cases (code c == b'/')) [
  | inl slash ↦ ("", split_slashes s, rw slash)
  | inr plain ↦ let (w, ws, e) = split-cons s in (String.◌∷◌ c w, ws, rw (plain, e))
]

split-append :
    (a b : String) → split_slashes (a ++ "/" ++ b) ≡ (split_slashes a +++ split_slashes b)
split-append String.[] b = ap split_slashes (append.nil ("/" ++ b) ∙ slash-append b)
split-append (String.◌∷◌ c s) b =
    ap split_slashes (append.cons c s ("/" ++ b)) ∙ elim (Bool-cases (code c == b'/')) [
      | inl slash ↦ rw (slash, split-append s b)
      | inr plain ↦ let (w, ws, e) = split-cons s in rw (plain, split-append s b, e)
    ]

join-cons :
    (c : Char) (w : String) (ws : List String)
    → join_slashes (String.◌∷◌ c w ∷ ws) ≡ String.◌∷◌ c (join_slashes (w ∷ ws))
join-cons c w [] = refl
join-cons c w (v ∷ vs) = append.cons c w ("/" ++ join_slashes (v ∷ vs))

join-split : (s : String) → join_slashes (split_slashes s) ≡ s
join-split String.[] = refl
join-split (String.◌∷◌ c s) =
    let (w, ws, e) = split-cons s in
    let whole = sym (ap join_slashes e) ∙ join-split s in
    elim (Bool-cases (code c == b'/')) [
      | inl slash ↦
          let is_slash : "/" ≡ c =
            sym (codes_equal c "/" (ap (λ n. compare n b'/') ((==_iff (code c) b'/').0 slash))) in
          rw (slash, e)
            (append.nil ("/" ++ join_slashes (w ∷ ws))
              ∙ (slash-append (join_slashes (w ∷ ws))
                  ∙ (ap (String.◌∷◌ "/") whole ∙ ap (λ d. String.◌∷◌ d s) is_slash)))
      | inr plain ↦ rw (plain, e) (join-cons c w ws ∙ ap (String.◌∷◌ c) whole)
    ]

split_last-append : (ws : List String) (v : String) → split_last (ws +++ (v ∷ [])) ≡ some (ws, v)
split_last-append [] v = refl
split_last-append (w ∷ []) v = refl
split_last-append (w ∷ x ∷ xs) v = rw (split_last-append (x ∷ xs) v)

-- The rules on the components of a key.
pub record IsKey (k : AssignmentKey) : Type 0 where
  pub exchange_plain : has_slash k.exchange ≡ false
  pub market_plain : has_slash k.market ≡ false
  pub channel_plain : has_slash k.channel ≡ false
  pub has_exchange : str_eq k.exchange "" ≡ false
  pub has_market : str_eq k.market "" ≡ false
  pub has_channel : str_eq k.channel "" ≡ false
  pub has_instrument : str_eq k.instrument_key "" ≡ false

pub validate_fixed-IsKey :
    (k : AssignmentKey)
    → validate_fixed k.exchange k.market k.channel ≡ ok tt
    → str_eq k.instrument_key "" ≡ false
    → IsKey k
unfolding validate_fixed
validate_fixed-IsKey k h named = record {
  exchange_plain = ground (arith, h);
  market_plain = ground (arith, h);
  channel_plain = ground (arith, h);
  has_exchange = ground (arith, h);
  has_market = ground (arith, h);
  has_channel = ground (arith, h);
  has_instrument = named;
}

canonical-parts :
    (k : AssignmentKey)
    → IsKey k
    → split_slashes (canonical k)
      ≡ k.exchange ∷ k.market ∷ (split_slashes k.instrument_key +++ (k.channel ∷ []))
canonical-parts k v =
    split-no_slash k.exchange (k.market ++ "/" ++ k.instrument_key ++ "/" ++ k.channel)
      v.exchange_plain
    ∙ ap (λ ps. k.exchange ∷ ps)
        (split-no_slash k.market (k.instrument_key ++ "/" ++ k.channel) v.market_plain
          ∙ ap (λ ps. k.market ∷ ps)
              (split-append k.instrument_key k.channel
                ∙ ap (λ ps. split_slashes k.instrument_key +++ ps)
                    (split-alone k.channel v.channel_plain)))

pub IsKey-parse : (k : AssignmentKey) → IsKey k → parse (canonical k) ≡ ok k
unfolding parse
IsKey-parse k v =
    let (w, ws, e) = split-cons k.instrument_key in
    let joined : join_slashes (w ∷ ws) ≡ k.instrument_key =
      sym (ap join_slashes e) ∙ join-split k.instrument_key in
    ap parse_parts (canonical-parts k v)
    ∙ (ap (key_of k.exchange k.market) (
          split_last-append (split_slashes k.instrument_key) k.channel
          ∙ ap (λ ps. some (ps, k.channel)) e)
        ∙ subst
            (λ j.
              (raise_if
                  (str_eq k.exchange ""
                    || (str_eq k.market "" || (str_eq j "" || str_eq k.channel "")))
                  value_error
                >> ok (record k { instrument_key = j }))
              ≡ ok k)
            (sym joined) (rw (v.has_exchange, v.has_market, v.has_instrument, v.has_channel)))

-- A key that `from_parts` returns is read back from its canonical text, slashes in the instrument
-- included.
pub parse-canonical :
    (exchange market instrument channel : String) (k : AssignmentKey)
    → from_parts exchange market instrument channel ≡ ok k
    → parse (canonical k) ≡ ok k
unfolding from_parts
parse-canonical exchange market instrument channel k h =
    let (fixed, h1) = >>-eq-ok (validate_fixed exchange market channel) _ h in
    let (named, h2) = >>-eq-ok (raise_if (str_eq instrument "") value_error) _ h1 in
    subst (λ k. parse (canonical k) ≡ ok k) (ok-injective h2)
      (IsKey-parse _ (validate_fixed-IsKey _ fixed (ground (arith, named))))
