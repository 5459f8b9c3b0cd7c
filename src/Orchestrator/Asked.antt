-- ===== src/Orchestrator/Asked.antt =====
-- The requests that leave a position, and what is in hand after them.
use mathlib.Core.Path.{subst}
use okx_hft_executor.Prelude.{
  ◌≡◌, refl, sym, ◌∙◌, String, true, Option, none, some, ◌∷◌, arith, ◌⊎◌, inl, inr,
}
use okx_hft_executor.Decimal.{Decimal}
use okx_hft_executor.Exchange.{OrderSide, buy, sell, ExchangeClient}
use okx_hft_executor.Exchange.Errors.{Exn, Result, ok, raise}
use okx_hft_executor.Strategy.{PositionSide, long, short}
use okx_hft_executor.Position.{ActivePosition, ActiveOrder, expected_exit_side}
use okx_hft_executor.Orchestrator.World.{
  World, M, Flow, ◌>>=◌, Request, limit_post_only, market, cancel,
}

-- The side that closes a position
abbrev pub opposite : PositionSide → OrderSide
opposite long = sell
opposite short = buy

-- The request closes the position: on the other side, for the whole size, and reduce-only.
abbrev pub IsClosing : ActivePosition → Request → Type 0
IsClosing p (market side size client_id reduce_only) =
    (side ≡ opposite p.side) × (size ≡ p.size) × (reduce_only ≡ true)
IsClosing p (limit_post_only side size price client_id reduce_only) =
    (side ≡ opposite p.side) × (size ≡ p.size) × (reduce_only ≡ true)
IsClosing p (cancel client_id) = ⊥

-- The order in hand is the one that was requested.
abbrev pub IsOf : Request → ActiveOrder → Type 0
IsOf (market side size client_id reduce_only) a =
    (a.side ≡ side) × (a.size ≡ size) × (a.client_id ≡ client_id) × (a.reduce_only ≡ reduce_only)
IsOf (limit_post_only side size price client_id reduce_only) a =
    (a.side ≡ side) × (a.size ≡ size) × (a.client_id ≡ client_id) × (a.reduce_only ≡ reduce_only)
IsOf (cancel client_id) a = ⊥

abbrev pub IsOfIf : Request → Option ActiveOrder → Type 0
IsOfIf q none = Unit
IsOfIf q (some a) = IsOf q a

-- No request was sent and no order is in hand; or one request that closes the position was sent,
-- and an order that is in hand is that request's, with the position in hand.
abbrev pub IsLeaving : {X : ExchangeClient} → ActivePosition → World X → World X → Type 0
IsLeaving p w w' =
    (w'.sent ≡ w.sent) × (w'.active_order ≡ none)
    ⊎ (q : Request) × (w'.sent ≡ q ∷ w.sent)
      × IsClosing p q
      × IsOfIf q w'.active_order
      × (w'.active_order ≡ none ⊎ w'.active_position ≡ some p)

-- The request is an exit of the position, under the id.
abbrev pub IsAsked : ActivePosition → String → Request → Type 0
IsAsked p id (market side size client_id reduce_only) =
    (side ≡ expected_exit_side p) × (size ≡ p.size) × (client_id ≡ id) × (reduce_only ≡ true)
IsAsked p id (limit_post_only side size price client_id reduce_only) =
    (side ≡ expected_exit_side p) × (size ≡ p.size) × (client_id ≡ id) × (reduce_only ≡ true)
IsAsked p id (cancel client_id) = ⊥

abbrev pub WasSent : {X : ExchangeClient} → ActivePosition → String → World X → World X → Type 0
WasSent p id w w' = (q : Request) × (w'.sent ≡ q ∷ w.sent) × IsAsked p id q

abbrev pub Attempted :
    {X : ExchangeClient}
    → ActivePosition
    → String
    → World X
    → Result (Decimal × String) × World X
    → Type 0
Attempted p id w (ok at, w') = WasSent p id w w'
Attempted p id w (raise e, w') = (w'.sent ≡ w.sent) ⊎ WasSent p id w w'

abbrev pub TriedToSend :
    {X : ExchangeClient}
    → ActivePosition
    → String
    → World X
    → Result ((Decimal × String) ⊎ Flow) × World X
    → Type 0
TriedToSend p id w (ok (inl at), w') = WasSent p id w w'
TriedToSend p id w (ok (inr flow), w') = (w'.sent ≡ w.sent) ⊎ WasSent p id w w'
TriedToSend p id w (raise e, w') = (w'.sent ≡ w.sent) ⊎ WasSent p id w w'

-- What holds after a step is shown for what it returns and for what it raises.
pub step_cases :
    {X : ExchangeClient} {A B : Type 0} (P : Result B × World X → Type 0) (m : M X A)
    (k : A → M X B) (w : World X)
    → ((a : A) → (m w).0 ≡ ok a → P (k a (m w).1))
    → ((e : Exn) → (m w).0 ≡ raise e → P (raise e, (m w).1))
    → P ((m >>= k) w)
step_cases {X} {A} {B} P m k w returns raises = go (m w).0 refl
  where
    go :
        (r : Result A)
        → (m w).0 ≡ r
        → P (elim r [ ok a ↦ k a (m w).1 | raise e ↦ (raise e, (m w).1) ])
    go (ok a) e = returns a e
    go (raise exc) e = raises exc e

pub step_to :
    {X : ExchangeClient} {A B : Type 0} (P : Result B × World X → Type 0) (m : M X A)
    (k : A → M X B) (w : World X) (a : A) (v : World X)
    → m w ≡ (ok a, v)
    → P (k a v)
    → P ((m >>= k) w)
step_to P m k w a v e h =
    subst (λ r. P (elim r.0 [ ok b ↦ k b r.1 | raise exc ↦ (raise exc, r.1) ])) (sym e) h

expected_exit_side-opposite : (p : ActivePosition) → expected_exit_side p ≡ opposite p.side
unfolding expected_exit_side
expected_exit_side-opposite p = ground arith

pub IsAsked-IsClosing :
    (p : ActivePosition) (id : String) (q : Request) → IsAsked p id q → IsClosing p q
IsAsked-IsClosing p id (market side size client_id reduce_only) (s, z, i, r) =
    (s ∙ expected_exit_side-opposite p, z, r)
IsAsked-IsClosing p id (limit_post_only side size price client_id reduce_only) (s, z, i, r) =
    (s ∙ expected_exit_side-opposite p, z, r)
IsAsked-IsClosing p id (cancel _) asked = elim asked [ ]

pub sent_still :
    {X : ExchangeClient} (p : ActivePosition) (id : String) (w v v' : World X)
    → v'.sent ≡ v.sent
    → (v.sent ≡ w.sent) ⊎ WasSent p id w v
    → (v'.sent ≡ w.sent) ⊎ WasSent p id w v'
sent_still p id w v v' e (inl same) = inl (e ∙ same)
sent_still p id w v v' e (inr (q, sent, asked)) = inr (q, e ∙ sent, asked)

pub given_up :
    {X : ExchangeClient} (p : ActivePosition) (id : String) (w v : World X)
    → (v.sent ≡ w.sent) ⊎ WasSent p id w v
    → v.active_order ≡ none
    → IsLeaving p w v
given_up p id w v (inl same) e = inl (same, e)
given_up p id w v (inr (q, sent, asked)) e =
    inr (q, sent, IsAsked-IsClosing p id q asked, rw e tt, inl e)
