-- ===== src/Exchange/Rest/Refusals.antt =====
-- What the executor makes of the responses of OKX: the errors that it tells apart, and the
-- positions that it is told of.
use mathlib.Core.Path.{subst, subst⁻¹}
use okx_hft_executor.Prelude.{
  String, ◌<>◌, Bool, true, false, ◌≡◌, refl, sym, ap, ◌∙◌, some, str_eq, arith, contains_text,
}
use okx_hft_executor.Exchange.Errors.{
  Exn, runtime_error, Result, ok, raise, text_of, is_okx_price_limit_error,
  is_okx_reduce_sync_error, is_okx_cancel_already_done_error,
}
use okx_hft_executor.Exchange.Rest.Texts.{contains_text-append, <>_assoc}
use okx_hft_executor.Exchange.Rest.Json.{
  Json, text, array, object, cons, Items, Fields, Library, py_str, get_field, or_null,
}
use okx_hft_executor.Exchange.Rest.Call.{
  Call, payload, accept, settle, extract_sub_error, is_ok_code, api_error,
}
use okx_hft_executor.Exchange.Rest.Client.{Transport, request}
use okx_hft_executor.Exchange.Rest.Market.{Account}

-- The text of a code stands in the text of the error.
sub_error-contains :
    (before code rest : String)
    → contains_text ("sCode=" <> code) (before <> (" sCode=" <> (code <> rest))) ≡ true
sub_error-contains before code rest =
    let inner : " sCode=" <> (code <> rest) ≡ " " <> (("sCode=" <> code) <> rest) =
      <>_assoc " " "sCode=" (code <> rest)
      ∙ ap (λ t. " " <> t) (sym (<>_assoc "sCode=" code rest)) in
    let joined : before <> (" sCode=" <> (code <> rest))
        ≡ (before <> " ") <> (("sCode=" <> code) <> rest) =
      ap (λ t. before <> t) inner ∙ sym (<>_assoc before " " (("sCode=" <> code) <> rest)) in
    subst⁻¹ (λ s. contains_text ("sCode=" <> code) s ≡ true) joined
      (contains_text-append (before <> " ") ("sCode=" <> code) rest)

gathered : (a b c e x : String) → (a <> (b <> (c <> e))) <> x ≡ a <> (b <> (c <> (e <> x)))
gathered a b c e x =
    <>_assoc a (b <> (c <> e)) x
    ∙ ap (λ t. a <> t) (<>_assoc b (c <> e) x ∙ ap (λ t. b <> t) (<>_assoc c e x))

module _ (lib : Library) where
  extract_sub_error-code :
      (first : Fields) (rest : Items) (code : String)
      → get_field "sCode" first ≡ some (text code)
      → str_eq code "" ≡ false
      → (msg : String) × (extract_sub_error lib (some (array (cons (object first) rest)))
          ≡ " sCode=" <> (code <> (" sMsg=" <> msg)))
  unfolding extract_sub_error
  extract_sub_error-code first rest code found named =
      (py_str lib (or_null (get_field "sMsg" first)), rw (found, named) refl)

  -- A payload of the API that refuses an order.
  pub record IsRefusal (code : String) (fs : Fields) : Type 0 where
    pub first : Fields
    pub rest : Items
    pub not_ok : is_ok_code lib (get_field "code" fs) ≡ false
    pub has_data : get_field "data" fs ≡ some (array (cons (object first) rest))
    pub has_code : get_field "sCode" first ≡ some (text code)
    pub named : str_eq code "" ≡ false

  accept-refused :
      (code : String) (fs : Fields)
      → IsRefusal code fs
      → (t : String) × (accept lib (object fs) ≡ raise (runtime_error t))
        × (contains_text ("sCode=" <> code) t ≡ true)
  unfolding accept
  accept-refused code fs r =
      let a : String = "OKX API error: code=" in
      let b = py_str lib (or_null (get_field "code" fs)) in
      let c : String = " msg=" in
      let m = py_str lib (or_null (get_field "msg" fs)) in
      let (msg, e) = extract_sub_error-code r.first r.rest code r.has_code r.named in
      let t = api_error lib (get_field "code" fs) (get_field "msg" fs) (get_field "data" fs) in
      let whole : (a <> (b <> (c <> m))) <> (" sCode=" <> (code <> (" sMsg=" <> msg))) ≡ t =
        gathered a b c m _
        ∙ ap (λ x. a <> (b <> (c <> (m <> x)))) (sym (ap (extract_sub_error lib) r.has_data ∙ e)) in
      (
        t,
        rw r.not_ok refl,
        subst (λ s. contains_text ("sCode=" <> code) s ≡ true) whole
            (sub_error-contains (a <> (b <> (c <> m))) code (" sMsg=" <> msg)),
      )

-- The codes of refusal that the loop tells apart, and its test for each
pub data Code : Type 0 where
  price_limit no_position no_reduction already_done : Code

abbrev pub code_text : Code → String
code_text price_limit = "51006"
code_text no_position = "51169"
code_text no_reduction = "51170"
code_text already_done = "51400"

abbrev pub is_recognized : Code → Exn → Bool
is_recognized price_limit e = is_okx_price_limit_error e
is_recognized no_position e = is_okx_reduce_sync_error e
is_recognized no_reduction e = is_okx_reduce_sync_error e
is_recognized already_done e = is_okx_cancel_already_done_error e

names-recognized :
    (code : Code) (e : Exn)
    → contains_text ("sCode=" <> code_text code) (text_of e) ≡ true
    → is_recognized code e ≡ true
unfolding is_okx_price_limit_error is_okx_reduce_sync_error is_okx_cancel_already_done_error
names-recognized price_limit e h = h
names-recognized no_position e h = ground (arith, h)
names-recognized no_reduction e h = ground (arith, h)
names-recognized already_done e h = h

-- The call raises an error that passes the test.
abbrev pub IsRaised {ℓ} : {A : Type ℓ} → (Exn → Bool) → Result A → Type 0
IsRaised test (ok a) = ⊥
IsRaised test (raise e) = test e ≡ true

IsRaised-weaken {ℓ} :
    {A : Type ℓ} (p q : Exn → Bool) (r : Result A)
    → ((e : Exn) → p e ≡ true → q e ≡ true)
    → IsRaised p r
    → IsRaised q r
IsRaised-weaken p q (ok a) h i = i
IsRaised-weaken p q (raise e) h i = h e i

-- The error names the code.
abbrev pub Names {ℓ} : {A : Type ℓ} → String → Result A → Type 0
Names code r = IsRaised (λ e. contains_text ("sCode=" <> code) (text_of e)) r

module _ (lib : Library) (account : Account) (T : Transport) where
  request-refused :
      {A : Type 0} (c : Call) (read : Json → Result A) (s : T.State) (fs : Fields) (code : String)
      → (T.send c s).0 ≡ payload (object fs)
      → IsRefusal lib code fs
      → Names code (request lib account T c read s).0
  unfolding request settle
  request-refused c read s fs code answered r =
      let (t, raised, found) = accept-refused lib code fs r in
      rw (answered, raised, request, settle) found

  -- A request that OKX answers with a code of failure, and with the code of the refused order in its
  -- first item, raises an error which the loop recognizes by that code: 51006 as outside the price
  -- limits, 51169 and 51170 as a position that is gone, 51400 as an order that is already done.
  pub request-recognized :
      {A : Type 0} (c : Call) (read : Json → Result A) (s : T.State) (fs : Fields) (code : Code)
      → (T.send c s).0 ≡ payload (object fs)
      → IsRefusal lib (code_text code) fs
      → IsRaised (is_recognized code) (request lib account T c read s).0
  request-recognized c read s fs code answered r =
      IsRaised-weaken _ (is_recognized code) (request lib account T c read s).0
        (λ e h. names-recognized code e h) (request-refused c read s fs (code_text code) answered r)
