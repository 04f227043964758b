-- ===== src/Gateway/Fallback/Address.antt =====
-- The address of the provider.
use Prim.Native.String.{[], ◌∷◌}
use text.Mathlib.TextLemmas.{cons-append, nil-append}
use ombot.Prelude.{
  String, ◌≡◌, refl, sym, subst, ap, ◌≢◌, true, arith, eq_iff, eq_refl, Bool-cases, inl, inr, ◌==◌,
}
use ombot.Js.Text.{◌⧺◌, trim, ends_with}
use ombot.Gateway.Client.Connect.{drop_last}
use ombot.Gateway.Fallback.{without_slashes, normalize_open_ai_base_url}

ends_with-append : (s t : String) → ends_with (s ⧺ t) t ≡ true
unfolding ends_with
ends_with-append [] [] = refl
ends_with-append [] (c ∷ t) = rw nil-append (ground (arith, eq_refl (c ∷ t)))
ends_with-append (c ∷ s) t = rw cons-append (ground (arith, ends_with-append s t))

too_short : ◌≢◌ {A = String} "" "/v1"
too_short e = ground (arith, eq_iff "" "/v1")

ends_with-drop_last :
    (s : String) → ends_with s "/v1/" ≡ true → ends_with (drop_last s) "/v1" ≡ true
unfolding ends_with drop_last
ends_with-drop_last [] h = cc
ends_with-drop_last (c ∷ []) h = elim (Bool-cases ((c ∷ []) == "/v1/")) [
  | inl whole ↦
      let e : ◌≡◌ {A = String} "" "/v1" = ap drop_last ((eq_iff (c ∷ []) "/v1/").0 whole) in
      absurd (too_short e)
  | inr other ↦ cc
]
ends_with-drop_last (c ∷ d ∷ s) h = elim (Bool-cases ((c ∷ d ∷ s) == "/v1/")) [
  | inl whole ↦
      subst (λ x. ends_with (drop_last x) "/v1" ≡ true) (sym ((eq_iff (c ∷ d ∷ s) "/v1/").0 whole))
        refl
  | inr longer ↦ ground (arith, ends_with-drop_last (d ∷ s))
]

-- Whatever address is configured, that of the provider ends in `/v1`.
ends_with-normalize : (raw : String) → ends_with (normalize_open_ai_base_url raw) "/v1" ≡ true
unfolding normalize_open_ai_base_url
ends_with-normalize raw = elim (Bool-cases (trim raw == "")) [
  | inl empty ↦ rw empty (unfold ends_with in refl)
  | inr given ↦ rw given (elim (Bool-cases (ends_with (trim raw) "/v1")) [
    | inl there ↦ rw there there
    | inr other ↦ rw other (elim (Bool-cases (ends_with (trim raw) "/v1/")) [
      | inl slash ↦ rw slash (ends_with-drop_last (trim raw) slash)
      | inr none_ ↦ rw none_ (ends_with-append (without_slashes (trim raw)) "/v1")
    ])
  ])
]
