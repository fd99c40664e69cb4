-- ===== src/Checkout/Tests.antt =====
-- Runs of the checkout in the sandbox, and the theorems at their inputs.
use allas_code_blueprint.Prelude.{
  ℕ, String, ◌≡◌, refl, false, true, none, some, [], ◌∷◌, arith, nat_eq, if◌then◌else◌,
}
use allas_code_blueprint.Prelude.Int.{pos, ◌-ℤ◌}
use allas_code_blueprint.Prelude.Dict.{get, put}
use allas_code_blueprint.Checkout.{
  ok, brl, ProductRecord, StockReservation, PaymentAuthorization, BuyOneProductInput,
  BuyOneProductOutput, TraceContext,
}
use allas_code_blueprint.Checkout.Steps.{
  fail, reservation_key, resolve_product, AuthoritativePrice, resolve_authoritative_price,
  reserve_one_stock_unit, release_stock_reservation, register_sale, commit_stock_reservation,
}
use allas_code_blueprint.Checkout.Execute.{
  Environment, World, request, finish, commit, record_sale, charge, reserve, purchase, execute,
}
use allas_code_blueprint.Checkout.Sandbox.{
  Sandbox, authorize, release, sandbox_payments, create_state,
}
use allas_code_blueprint.Checkout.Rollback.{KeepsShop, execute-rolls_back}
use allas_code_blueprint.Checkout.Sells.{OnOk, Sold, entry_of, execute-sells_one}
use allas_code_blueprint.Checkout.Charges.{IsHonest, sandbox-IsHonest, execute-charges_price}
use allas_code_blueprint.Checkout.Changes.{IsStocked, execute-IsStocked}
use allas_code_blueprint.Checkout.Replay.{execute-replays}
use allas_code_blueprint.Checkout.Oversell.{HasCommitted, execute-sells_without_stock}

abbrev uuids : ℕ → String
uuids n =
    if nat_eq n 0 then "u0" else if nat_eq n 1 then "u1" else if nat_eq n 2 then "u2" else "u3"

abbrev env : Environment
env = record { uuid = uuids; now = λ n. "2026-01-01" }

abbrev order : BuyOneProductInput
order = record {
  buyer_id = "ana";
  product_ref = "  Café 500G ";
  payment_method = "pix";
  idempotency_key = "k1";
}

abbrev second_order : BuyOneProductInput
second_order = record order { idempotency_key = "k2" }

abbrev trace : TraceContext
trace = record { trace_id = "t1"; causation_id = "c1" }

abbrev coffee : ProductRecord
coffee = record {
  product_id = "coffee-500g";
  aliases = "cafe 500g" ∷ "café 500g" ∷ "coffee" ∷ [];
  active = true;
  unit_price = pos 2490;
  currency = brl;
}

abbrev shop : World Sandbox
shop = record {
  state = create_state;
  pay = record { authorizations = []; fail_next_authorization = false; draws = 0 };
  events = [];
  draws = 0;
}

abbrev declining : World Sandbox
declining = record shop { pay = record shop.pay { fail_next_authorization = true } }

program : Unit {0}
unfolding execute purchase reserve charge record_sale commit resolve_product
    resolve_authoritative_price reserve_one_stock_unit release_stock_reservation register_sale
    commit_stock_reservation authorize release get put ◌-ℤ◌
program = tt

abbrev receipt : BuyOneProductOutput
receipt = record {
  sale_id = "sale-u0";
  product_id = "coffee-500g";
  quantity = 1;
  amount = pos 2490;
  currency = brl;
  payment_id = "pay-u0";
}

abbrev sold : World Sandbox
unfolding program
sold = (execute env (sandbox_payments uuids) order trace shop).1

found_coffee : resolve_product create_state "  Café 500G " ≡ ok coffee
unfolding program
found_coffee = refl

execute-sold : execute env (sandbox_payments uuids) order trace shop ≡ (ok receipt, sold)
unfolding program
execute-sold = refl

sold_stock : get "coffee-500g" sold.state.stock ≡ some (pos 2)
unfolding program
sold_stock = refl

execute_declined :
    (execute env (sandbox_payments uuids) order trace declining).0
    ≡ fail "PAYMENT_DECLINED" "Sandbox payment declined"
unfolding program
execute_declined = refl

no_sale : get "sale-u0" shop.state.sales ≡ none
unfolding program
no_sale = refl

no_order : get "k1" shop.state.idempotency ≡ none
unfolding program
no_order = refl

no_reservation : get (reservation_key trace coffee) shop.state.reservations ≡ none
unfolding program
no_reservation = refl

execute-rolls_back_example :
    KeepsShop declining.state (execute env (sandbox_payments uuids) order trace declining)
execute-rolls_back_example =
    execute-rolls_back env (sandbox_payments uuids) order trace declining no_sale

execute-sells_one_example :
    OnOk
      (λ v w. Sold trace order coffee shop.state v w.state)
      (execute env (sandbox_payments uuids) order trace shop)
execute-sells_one_example =
    execute-sells_one env (sandbox_payments uuids) order trace coffee shop no_order found_coffee
      no_reservation

execute-charges_price_example :
    OnOk (λ v w. v.amount ≡ pos 2490) (execute env (sandbox_payments uuids) order trace shop)
execute-charges_price_example =
    execute-charges_price env (sandbox_payments uuids) (sandbox-IsHonest uuids) order trace coffee
      shop no_order found_coffee

sandbox-IsHonest_example : IsHonest (sandbox_payments uuids)
sandbox-IsHonest_example = sandbox-IsHonest uuids

shop-IsStocked : IsStocked shop.state
unfolding get
shop-IsStocked p q e = ground arith

execute-IsStocked_example :
    IsStocked (execute env (sandbox_payments uuids) order trace shop).1.state
execute-IsStocked_example =
    execute-IsStocked env (sandbox_payments uuids) order trace shop shop-IsStocked

execute-replays_example :
    execute env (sandbox_payments uuids) (record order { buyer_id = "bia" }) trace sold
    ≡ finish env (ok receipt) trace sold
execute-replays_example =
    execute-replays env (sandbox_payments uuids) order (record order { buyer_id = "bia" }) trace
      trace shop sold receipt execute-sold refl

abbrev committed_unit : StockReservation
committed_unit = record {
  reservation_id = reservation_key trace coffee;
  trace_id = "t1";
  product_id = "coffee-500g";
  quantity = 1;
  committed = true;
  released = false;
}

sold-HasCommitted : HasCommitted trace coffee sold.state committed_unit
unfolding program
sold-HasCommitted = record {
  found = refl;
  id = refl;
  trace_id = refl;
  committed = refl;
  released = refl;
}

abbrev coffee_price : AuthoritativePrice
coffee_price = record { product = coffee; amount = pos 2490; currency = brl }

abbrev first_payment : PaymentAuthorization
first_payment = record {
  payment_id = "pay-u0";
  trace_id = "t1";
  amount = pos 2490;
  currency = brl;
  released = false;
}

second_facts :
    (get "k2" sold.state.idempotency ≡ none)
    × (resolve_product sold.state "  Café 500G " ≡ ok coffee)
    × (resolve_authoritative_price coffee ≡ ok coffee_price)
    × ((authorize uuids (request second_order trace coffee_price) sold.pay).0 ≡ ok first_payment)
unfolding program
second_facts = (refl, refl, refl, refl)

execute-sells_without_stock_example :
    let (result, after) = execute env (sandbox_payments uuids) second_order trace sold in
    (v : BuyOneProductOutput) × (result ≡ ok v)
    × (get v.sale_id after.state.sales ≡ some (entry_of trace second_order v))
    × (after.state.stock ≡ sold.state.stock)
unfolding authorize release
execute-sells_without_stock_example =
    execute-sells_without_stock env (sandbox_payments uuids) second_order trace coffee
      committed_unit coffee_price first_payment sold second_facts.0 second_facts.1 second_facts.2
      sold-HasCommitted second_facts.3 refl refl
