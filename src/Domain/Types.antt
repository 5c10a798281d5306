-- ===== src/Domain/Types.antt =====
-- The enumerations of domain/types.py that an envelope names, and their texts.
use crytpo_data.Shared.{
  ◌≡◌, ◌↔◌, Bool, true, false, Option, none, some, String, str_eq, if◌then◌else◌, Eq, arith,
}

pub data Exchange : Type 0 where
  binance okx bybit bitget kraken : Exchange

abbrev pub exchange_value : Exchange → String
exchange_value binance = "binance"
exchange_value okx = "okx"
exchange_value bybit = "bybit"
exchange_value bitget = "bitget"
exchange_value kraken = "kraken"

abbrev pub exchange_beq : Exchange → Exchange → Bool
exchange_beq binance binance = true
exchange_beq okx okx = true
exchange_beq bybit bybit = true
exchange_beq bitget bitget = true
exchange_beq kraken kraken = true
exchange_beq _ _ = false

pub data Market : Type 0 where
  spot perpetual : Market

abbrev pub market_value : Market → String
market_value spot = "spot"
market_value perpetual = "perpetual"

-- `Market(text)`
abbrev pub market_of : String → Option Market
market_of text =
    if str_eq text "spot"
    then some spot
    else if str_eq text "perpetual"
    then some perpetual
    else none

abbrev pub market_beq : Market → Market → Bool
market_beq spot spot = true
market_beq perpetual perpetual = true
market_beq _ _ = false

pub data Transport : Type 0 where
  rest websocket internal : Transport

pub data IntegrityMode : Type 0 where
  sequence_verified checksum_verified snapshot_chain best_effort invalid : IntegrityMode

-- `is_research_valid`
abbrev pub is_research_valid : IntegrityMode → Bool
is_research_valid invalid = false
is_research_valid _ = true

pub data CoverageMode : Type 0 where
  complete lossy_window unknown : CoverageMode

pub exchange_beq_iff : (a b : Exchange) → (exchange_beq a b ≡ true) ↔ (a ≡ b)
exchange_beq_iff a b = ground arith

pub market_beq_iff : (a b : Market) → (market_beq a b ≡ true) ↔ (a ≡ b)
market_beq_iff a b = ground arith

instance abbrev pub exchange_eq : Eq Exchange
exchange_eq = record { beq = exchange_beq; beq_iff = exchange_beq_iff }

instance abbrev pub market_eq : Eq Market
market_eq = record { beq = market_beq; beq_iff = market_beq_iff }
