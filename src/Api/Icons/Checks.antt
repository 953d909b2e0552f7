-- ===== src/Api/Icons/Checks.antt =====
-- What the checks of an image in internal/api/icons.go let through.
use homepad_api.Base.{
  ℕ, Bool, true, false, not, List, Option, none, some, ok, nat_eq, string_eq, text_eq, ltb, length,
  ◌≡◌, refl, arith,
}
use homepad_api.Storage.{World, Ext, Act, ◌>>◌}
use homepad_api.Api.{Response, error}
use homepad_api.Api.Auth.{refuse_if}
use homepad_api.Api.Icons.{
  is_png, bad_size, icon_max_bytes, sized, check_image, check_upload, check_fetched, unsupported,
}

-- An action that leaves the database and whose value, where there is one, has `Q`.
abbrev pub Checks : {A : Type 0} → (A → Type 0) → Act Response A → Type 0
Checks {A} Q m = (w : World) → ((m w).1.db ≡ w.db) × ((a : A) → (m w).0 ≡ ok a → Q a)

refuse_if-Checks :
    {A : Type 0} {Q : A → Type 0} (c : Bool) (r : Response) (m : Act Response A)
    → (c ≡ false → Checks Q m)
    → Checks Q (refuse_if c r >> m)
refuse_if-Checks true r m h w = (refl, λ a stopped. absurd (ground (arith, stopped)))
refuse_if-Checks false r m h w = h refl w

sized-Checks :
    (o : Option (ℕ × ℕ)) (corrupt unfit : Response)
    → Checks (λ size. bad_size size ≡ false) (sized o corrupt unfit)
sized-Checks none corrupt unfit w = (refl, λ a stopped. absurd (ground (arith, stopped)))
sized-Checks (some size) corrupt unfit w = (ground arith, λ a h. ground (arith, h))

abbrev pub Fits : List ℕ → ℕ × ℕ → Type 0
Fits body size =
    (ltb icon_max_bytes (length body) ≡ false) × (is_png body ≡ true) × (bad_size size ≡ false)

module _ (ext : Ext) where
  -- A check lets through what fits, and leaves the database.
  check_image-Fits :
      (too_long not_png corrupt unfit : Response) (body : List ℕ)
      → Checks (Fits body) (check_image too_long not_png corrupt unfit ext body)
  unfolding check_image
  check_image-Fits too_long not_png corrupt unfit body =
      let rest = sized (ext.png_size body) corrupt unfit in
      refuse_if-Checks {Q = Fits body} (ltb icon_max_bytes (length body)) too_long
        (refuse_if (not (is_png body)) not_png >> rest)
        λ short. refuse_if-Checks {Q = Fits body} (not (is_png body)) not_png rest λ png w.
          let checked = sized-Checks (ext.png_size body) corrupt unfit w in
          (checked.0, λ size h. (short, ground (arith, png), checked.1 size h))

  pub check_upload-Fits : (body : List ℕ) → Checks (Fits body) (check_upload ext body)
  unfolding check_upload
  check_upload-Fits body =
      check_image-Fits (error "icon exceeds 256 KB" 413) (error "body is not a PNG" 415)
        (error "corrupt PNG" 422) (error "icon must be between 16x16 and 512x512" 422) body

  pub check_fetched-Fits : (body : List ℕ) → Checks (Fits body) (check_fetched ext body)
  unfolding check_fetched
  check_fetched-Fits body =
      check_image-Fits (error "Could not fetch favicon: image exceeds 256 KB" 422)
        (error "Could not fetch favicon: not a PNG image" 422) unsupported unsupported body
