-- ===== src/Exchange/Rest/Reported.antt =====
-- The positions that OKX reports.
use okx_hft_executor.Prelude.{
  String, false, ◌≡◌, Option, none, some, List, arith, inl, inr, All, Bool-cases,
}
use okx_hft_executor.Prelude.Int.{is_zero_ℤ}
use okx_hft_executor.Decimal.{Decimal}
use okx_hft_executor.Exchange.{OkxPosition}
use okx_hft_executor.Exchange.Errors.{Result, ok, raise, Result-cases}
use okx_hft_executor.Exchange.Rest.Json.{
  Json, nil, cons, Items, Library, ◌>>=◌, optional_field, items_of,
}
use okx_hft_executor.Exchange.Rest.Parse.{parse_position, parse_positions, keep_position}
use okx_hft_executor.Exchange.Rest.Client.{Transport, request, read_positions, okx_rest_client}
use okx_hft_executor.Exchange.Rest.Market.{Account}

-- The position is not of amount zero.
abbrev pub IsHeld : OkxPosition → Type 0
IsHeld p = is_zero_ℤ p.pos_amount ≡ false

abbrev pub AreHeld : Result (List OkxPosition) → Type 0
AreHeld (ok ps) = All IsHeld ps
AreHeld (raise e) = Unit

abbrev IsHeldIf : Result (Option OkxPosition) → Type 0
IsHeldIf (ok (some p)) = IsHeld p
IsHeldIf _ = Unit

module _ (lib : Library) (inst_id : String) where
  keep_position-IsHeldIf :
      (item : Json) (amount : Option Decimal) → IsHeldIf (keep_position lib inst_id item amount)
  keep_position-IsHeldIf item none = tt
  keep_position-IsHeldIf item (some x) = elim (Bool-cases (is_zero_ℤ x)) [
    | inl zero_amount ↦ rw zero_amount tt
    | inr held ↦ ground (arith, held)
  ]

  parse_position-IsHeldIf : (item : Json) → IsHeldIf (parse_position lib inst_id item)
  unfolding parse_position
  parse_position-IsHeldIf item = elim (Result-cases (optional_field lib "pos" item)) [
    | inl (amount, e) ↦ rw (e, parse_position) (keep_position-IsHeldIf item amount)
    | inr (exc, e) ↦ rw (e, parse_position) tt
  ]

  parse_positions-AreHeld : (items : Items) → AreHeld (parse_positions lib inst_id items)
  unfolding parse_positions
  parse_positions-AreHeld nil = tt
  parse_positions-AreHeld (cons v vs) =
      let one = parse_position-IsHeldIf v in
      let rest = parse_positions-AreHeld vs in
      elim (Result-cases (parse_position lib inst_id v)) [
        | inr (exc, e) ↦ rw e tt
        | inl (none, e) ↦ elim (Result-cases (parse_positions lib inst_id vs)) [
          | inr (exc, e') ↦ rw (e, e') tt
          | inl (ps, e') ↦ ground (arith, e, e', rest)
        ]
        | inl (some p, e) ↦ elim (Result-cases (parse_positions lib inst_id vs)) [
          | inr (exc, e') ↦ rw (e, e') tt
          | inl (ps, e') ↦ ground (arith, e, e', one, rest)
        ]
      ]

read_positions-AreHeld :
    (lib : Library) (account : Account) (asked : Result Json)
    → AreHeld (asked >>= read_positions lib account)
unfolding read_positions
read_positions-AreHeld lib account (raise e) = tt
read_positions-AreHeld lib account (ok found) = elim (Result-cases (items_of found)) [
  | inr (exc, e) ↦ rw (e, read_positions) tt
  | inl (items, e) ↦ rw (e, read_positions) (parse_positions-AreHeld lib account.inst_id items)
]

-- Whatever OKX answers, no position that the client reports has an amount of zero.
pub get_positions-AreHeld :
    (lib : Library) (account : Account) (T : Transport) (s : T.State)
    → AreHeld ((okx_rest_client lib account T).get_positions s).0
unfolding request
get_positions-AreHeld lib account T s = read_positions-AreHeld lib account _
