-- ===== src/Checkout.antt =====
-- use-cases/buy-one-product/runtime (types.ts and executor.ts): one customer buys one product.
-- This file holds the records of types.ts; `Steps` the functions over the state, `Execute` the
-- executor, `Sandbox` the payment capability of sandbox.ts, and the other modules the proofs.
-- Money is in hundredths of a real. The `details` of an error, which nothing reads, are left out.
pub mod Steps
pub mod Execute
pub mod Sandbox
pub mod Rollback
pub mod Sells
pub mod Charges
pub mod Changes
pub mod Replay
pub mod Oversell
mod Tests
use allas_code_blueprint.Prelude.{ℕ, String, Bool, List}
use allas_code_blueprint.Prelude.Int.{ℤ}
use allas_code_blueprint.Prelude.Dict.{Dict}

pub data Currency : Type 0 where
  brl : Currency

pub record RuntimeError : Type 0 where
  pub code : String
  pub message : String

pub data InternalResult {ℓ} (A : Type ℓ) : Type ℓ where
  ok : A → InternalResult A
  err : RuntimeError → InternalResult A

pub record ProductRecord : Type 0 where
  pub product_id : String
  pub aliases : List String
  pub active : Bool
  pub unit_price : ℤ
  pub currency : Currency

pub record StockReservation : Type 0 where
  pub reservation_id : String
  pub trace_id : String
  pub product_id : String
  pub quantity : ℕ
  pub committed : Bool
  pub released : Bool

pub record PaymentAuthorization : Type 0 where
  pub payment_id : String
  pub trace_id : String
  pub amount : ℤ
  pub currency : Currency
  pub released : Bool

pub record SaleRecord : Type 0 where
  pub sale_id : String
  pub trace_id : String
  pub buyer_id : String
  pub product_id : String
  pub quantity : ℕ
  pub amount : ℤ
  pub currency : Currency
  pub payment_id : String

pub record BuyOneProductInput : Type 0 where
  pub buyer_id : String
  pub product_ref : String
  pub payment_method : String
  pub idempotency_key : String

pub record BuyOneProductOutput : Type 0 where
  pub sale_id : String
  pub product_id : String
  pub quantity : ℕ
  pub amount : ℤ
  pub currency : Currency
  pub payment_id : String

pub record TraceContext : Type 0 where
  pub trace_id : String
  pub causation_id : String

pub record RuntimeEvent : Type 0 where
  pub event_id : String
  pub trace_id : String
  pub causation_id : String
  pub canonical_label : String
  pub occurred_at : String
  pub payload : InternalResult BuyOneProductOutput

pub record BuyOneProductState : Type 0 where
  pub products : Dict ProductRecord
  pub stock : Dict ℤ
  pub reservations : Dict StockReservation
  pub payments : Dict PaymentAuthorization
  pub sales : Dict SaleRecord
  pub idempotency : Dict BuyOneProductOutput

pub record AuthorizeInput : Type 0 where
  pub trace_id : String
  pub amount : ℤ
  pub currency : Currency
  pub payment_method : String
  pub idempotency_key : String

-- The interface of a payment provider, over the provider's own state `P`.
pub record PaymentCapability (P : Type 0) : Type 0 where
  pub authorize : AuthorizeInput → P → InternalResult PaymentAuthorization × P
  pub release : PaymentAuthorization → P → InternalResult PaymentAuthorization × P
