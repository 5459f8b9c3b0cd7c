-- ===== src/Accounting/Laws.antt =====
-- What the fees and the average price of a list of fills are, whatever the order of the fills.
use okx_hft_executor.Prelude.{
  Bool-cases, inl, inr, String, ◌*◌, ℕ, ◌+◌, ◌<◌, ◌≤◌, ◌≡◌, Option, none, some, List, [], ◌∷◌, ◌++◌,
  arith, All, ◌∙◌, sym,
}
use okx_hft_executor.Prelude.Int.{
  ℤ, pos, ◌+ℤ◌, ◌*ℤ◌, ◌≤ℤ◌, ◌<ℤ◌, abs, int_laws, *ℤ_mono, *ℤ_nonneg, mul_add, add_mul,
  *ℤ_mono_right, *ℤ_parts,
}
use okx_hft_executor.Decimal.{Decimal, Ratio, quanta_per_unit}
use okx_hft_executor.Exchange.{Liquidity, maker, taker, OkxFill}
use okx_hft_executor.Accounting.{
  FillSums, liquidity_label, add_fill, add_fills, no_sums, sum_fills, fees_from_okx_fills,
  estimate_fees, calc_net_pnl, of_amount, of_notional, is_market,
}

-- The four sums of the fills, each by itself.
abbrev pub fees_of : List OkxFill → ℤ
fees_of [] = pos 0
fees_of (f ∷ fs) = abs f.fee +ℤ fees_of fs

abbrev pub notional_of : List OkxFill → ℤ
notional_of [] = pos 0
notional_of (f ∷ fs) = f.fill_px *ℤ f.fill_sz +ℤ notional_of fs

abbrev pub size_of : List OkxFill → ℤ
size_of [] = pos 0
size_of (f ∷ fs) = f.fill_sz +ℤ size_of fs

abbrev pub is_label : Liquidity → Option Liquidity → ℕ
is_label maker (some maker) = 1
is_label taker (some taker) = 1
is_label _ _ = 0

abbrev pub labelled : Liquidity → List OkxFill → ℕ
labelled l [] = 0
labelled l (f ∷ fs) = is_label l (liquidity_label f.exec_type) + labelled l fs

-- The loop adds to its variables what the fills sum up to.
record Added (s t : FillSums) (fs : List OkxFill) : Type 0 where
  fee_added : t.total_fee ≡ s.total_fee +ℤ fees_of fs
  notional_added : t.notional ≡ s.notional +ℤ notional_of fs
  size_added : t.size ≡ s.size +ℤ size_of fs
  makers_added : t.makers ≡ s.makers + labelled maker fs
  takers_added : t.takers ≡ s.takers + labelled taker fs

add_fill-total_fee :
    (s : FillSums) (f : OkxFill) → (add_fill s f).total_fee ≡ s.total_fee +ℤ abs f.fee
unfolding add_fill
add_fill-total_fee s f = ground arith

add_fill-notional :
    (s : FillSums) (f : OkxFill) → (add_fill s f).notional ≡ s.notional +ℤ f.fill_px *ℤ f.fill_sz
unfolding add_fill
add_fill-notional s f = ground arith

add_fill-size : (s : FillSums) (f : OkxFill) → (add_fill s f).size ≡ s.size +ℤ f.fill_sz
unfolding add_fill
add_fill-size s f = ground arith

add_fill-labels :
    (s : FillSums) (f : OkxFill)
    → ((add_fill s f).makers ≡ s.makers + is_label maker (liquidity_label f.exec_type))
      × ((add_fill s f).takers ≡ s.takers + is_label taker (liquidity_label f.exec_type))
unfolding add_fill
add_fill-labels s f = ground arith

add_fills-Added : (s : FillSums) (fs : List OkxFill) → Added s (add_fills s fs) fs
unfolding add_fills
add_fills-Added s [] = record {
  fee_added = omega int_laws;
  notional_added = omega int_laws;
  size_added = omega int_laws;
  makers_added = omega arith;
  takers_added = omega arith;
}
add_fills-Added s (f ∷ fs) =
    let rest = add_fills-Added (add_fill s f) fs in
    record {
      fee_added = rest.fee_added ∙ rw add_fill-total_fee (omega int_laws);
      notional_added = rest.notional_added ∙ rw add_fill-notional (omega int_laws);
      size_added = rest.size_added ∙ rw add_fill-size (omega int_laws);
      makers_added = omega (arith, rest.makers_added, add_fill-labels s f);
      takers_added = omega (arith, rest.takers_added, add_fill-labels s f);
    }

fees_of-append : (xs ys : List OkxFill) → fees_of (xs ++ ys) ≡ fees_of xs +ℤ fees_of ys
fees_of-append [] ys = omega int_laws
fees_of-append (x ∷ xs) ys = rw (fees_of-append xs ys) (omega int_laws)

fees_of-nonneg : (fs : List OkxFill) → pos 0 ≤ℤ fees_of fs
unfolding abs
fees_of-nonneg [] = omega arith
fees_of-nonneg (f ∷ fs) = omega (int_laws, fees_of-nonneg fs)

-- Every fill is at a price between the two, and none has a negative size.
abbrev pub IsWithin : Decimal → Decimal → OkxFill → Type 0
IsWithin low high f = (low ≤ℤ f.fill_px) × (f.fill_px ≤ℤ high) × (pos 0 ≤ℤ f.fill_sz)

notional_of-bounds :
    (low high : Decimal) (fs : List OkxFill)
    → All (IsWithin low high) fs
    → (low *ℤ size_of fs ≤ℤ notional_of fs) × (notional_of fs ≤ℤ high *ℤ size_of fs)
notional_of-bounds low high [] h = (zero_below low, zero_above high)
  where
    zero_below : (x : ℤ) → x *ℤ pos 0 ≤ℤ pos 0
    zero_below x = omega (arith, *ℤ_parts x (pos 0))

    zero_above : (x : ℤ) → pos 0 ≤ℤ x *ℤ pos 0
    zero_above x = omega (arith, *ℤ_parts x (pos 0))
notional_of-bounds low high (f ∷ fs) ((lo, hi, sz), h) =
    let (a, b) = notional_of-bounds low high fs h in
    let c = *ℤ_mono low f.fill_px f.fill_sz lo sz in
    let d = *ℤ_mono f.fill_px high f.fill_sz hi sz in
    (rw mul_add (omega (int_laws, a, c)), rw mul_add (omega (int_laws, b, d)))

-- What an average price says of the sums of its fills.
abbrev pub IsAverage : Decimal → Decimal → ℤ → Option Ratio → Type 0
IsAverage low high size none = size ≤ℤ pos 0
IsAverage low high size (some r) =
    (r.den ≡ size) × (pos 0 <ℤ size) × (low *ℤ r.den ≤ℤ r.num) × (r.num ≤ℤ high *ℤ r.den)

-- Fills of no negative size have an average price exactly when their size is not 0, and it lies
-- between any bounds that all fill prices keep to.
pub sum_fills-IsAverage :
    (low high : Decimal) (fs : List OkxFill)
    → All (IsWithin low high) fs
    → IsAverage low high (size_of fs) (sum_fills fs).avg_px
unfolding sum_fills
sum_fills-IsAverage low high fs h =
    let sums = add_fills-Added no_sums fs in
    let size_eq : (add_fills no_sums fs).size ≡ size_of fs = sums.size_added ∙ omega int_laws in
    let notional_eq : (add_fills no_sums fs).notional ≡ notional_of fs =
      sums.notional_added ∙ omega int_laws in
    rw (size_eq, notional_eq) (ground (arith, notional_of-bounds low high fs h))

-- What a liquidity label says of the fills that carry either label.
abbrev pub IsMajority : ℕ → ℕ → Option Liquidity → Type 0
IsMajority makers takers none = (makers ≡ 0) × (takers ≡ 0)
IsMajority makers takers (some maker) = (takers ≤ makers) × (0 < makers)
IsMajority makers takers (some taker) = (makers ≤ takers) × (0 < takers)

-- The liquidity of a leg is a label that no other label outnumbers, and is missing only when no
-- fill is labelled.
pub sum_fills-IsMajority :
    (fs : List OkxFill)
    → IsMajority (labelled maker fs) (labelled taker fs) (sum_fills fs).liquidity
unfolding sum_fills
sum_fills-IsMajority fs =
    let sums = add_fills-Added no_sums fs in ground (arith, sums.makers_added, sums.takers_added)

sum_fills-fee : (fs : List OkxFill) → (sum_fills fs).fee ≡ fees_of fs
unfolding sum_fills
sum_fills-fee fs = (add_fills-Added no_sums fs).fee_added ∙ omega int_laws

-- The fee of a trade that is booked from fills is the sum of the sizes of all their fees, in
-- either leg and in any order of the two; so its net result is never above its gross result.
pub fees_from_okx_fills-total :
    (entry_fills exit_fills : List OkxFill) (gross : ℤ)
    → let fees = fees_from_okx_fills entry_fills exit_fills in
      (fees.total_fee ≡ of_amount (fees_of (entry_fills ++ exit_fills)))
      × (fees.total_fee ≡ (fees_from_okx_fills exit_fills entry_fills).total_fee)
      × (calc_net_pnl gross fees.total_fee ≤ℤ of_notional gross)
unfolding fees_from_okx_fills calc_net_pnl
fees_from_okx_fills-total xs ys gross =
    let total : of_amount (sum_fills xs).fee +ℤ of_amount (sum_fills ys).fee
        ≡ of_amount (fees_of (xs ++ ys)) =
      rw (sum_fills-fee xs, sum_fills-fee ys, fees_of-append xs ys)
        (sym (add_mul (fees_of xs) (fees_of ys) _)) in
    let above : pos 0 ≤ℤ of_amount (fees_of (xs ++ ys)) =
      *ℤ_nonneg (fees_of (xs ++ ys)) (pos (quanta_per_unit * quanta_per_unit))
        (fees_of-nonneg (xs ++ ys)) (omega arith) in
    (total, omega int_laws, rw total (omega (int_laws, above)))

-- With an exit price and a size that are not negative, and a taker rate that is not below the
-- maker's, the estimated fees of a market exit are never below those of the same trade with any
-- other exit.
pub estimate_fees-market_exit :
    (entry_px exit_px size : Decimal) (entry_type exit_type : String)
    (maker_rate taker_rate : Decimal)
    → pos 0 ≤ℤ exit_px
    → pos 0 ≤ℤ size
    → maker_rate ≤ℤ taker_rate
    → (estimate_fees entry_px exit_px size entry_type exit_type maker_rate taker_rate).total_fee
      ≤ℤ (estimate_fees entry_px exit_px size entry_type "market" maker_rate taker_rate).total_fee
unfolding estimate_fees
estimate_fees-market_exit entry_px exit_px size entry_type exit_type m t hp hs hmt =
    let up = *ℤ_mono_right (exit_px *ℤ size) m t (*ℤ_nonneg exit_px size hp hs) hmt in
    elim (Bool-cases (is_market exit_type)) [
      | inl yes_market ↦ rw yes_market (omega arith)
      | inr no_market ↦ rw no_market (omega (int_laws, up))
    ]
