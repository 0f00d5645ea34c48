-- ===== src/Idempotency/Canonical.antt =====
-- The maps of a payment that Create answers: what json.Unmarshal makes of their JSON.
use dinapay_connector_binanc.Shared.{Text, lit, text_beq, [], ◌∷◌, ◌≡◌, refl}
use dinapay_connector_binanc.Strings.{text_leb}
use dinapay_connector_binanc.Core.Error.{Result, ok}
use dinapay_connector_binanc.Core.Value.{Time, Fields, str, obj, end, field}
use dinapay_connector_binanc.Core.Model.{CreatePaymentCommand, ProviderPayment}
use dinapay_connector_binanc.Core.Strict.{canonical_fields}
use dinapay_connector_binanc.BinancePay.Types.{Response, CreateOrderData}
use dinapay_connector_binanc.App.Service.{
  link_unless_empty, non_empty_links, redirect_completion, created_payment,
}

-- The maps are read back as they are.
abbrev pub IsCanonical : ProviderPayment → Type 0
IsCanonical p =
    (float_text : Text → Result Text)
    → (canonical_fields float_text p.completion ≡ ok p.completion)
      × (canonical_fields float_text p.provider_data ≡ ok p.provider_data)

module _ (f : Text → Result Text) where
  links-canonical :
      (universal app web : Text)
      → canonical_fields f (non_empty_links universal app web)
        ≡ ok (non_empty_links universal app web)
  unfolding canonical_fields non_empty_links text_leb text_beq lit
  links-canonical [] [] [] = refl
  links-canonical [] [] (c ∷ w) = refl
  links-canonical [] (b ∷ a) [] = refl
  links-canonical [] (b ∷ a) (c ∷ w) = refl
  links-canonical (d ∷ u) [] [] = refl
  links-canonical (d ∷ u) [] (c ∷ w) = refl
  links-canonical (d ∷ u) (b ∷ a) [] = refl
  links-canonical (d ∷ u) (b ∷ a) (c ∷ w) = refl

  -- A completion of the given links and codes
  completion-canonical :
      (links : Fields) (content image : Text)
      → canonical_fields f links ≡ ok links
      → let m = field (lit "links") (obj links) (
          link_unless_empty (lit "qrContent") content (
            link_unless_empty
              (lit "qrImageUrl")
              image
              (field (lit "type") (str (lit "redirect")) end))) in
        canonical_fields f m ≡ ok m
  unfolding canonical_fields link_unless_empty text_leb text_beq lit
  completion-canonical links [] [] h = rw h refl
  completion-canonical links [] (c ∷ i) h = rw h refl
  completion-canonical links (q ∷ s) [] h = rw h refl
  completion-canonical links (q ∷ s) (c ∷ i) h = rw h refl

pub created_payment-IsCanonical :
    (cmd : CreatePaymentCommand) (response : Response CreateOrderData) (t : Time)
    → IsCanonical (created_payment cmd response t)
unfolding created_payment redirect_completion canonical_fields
created_payment-IsCanonical cmd response t f =
    let d = response.content in
    (
      completion-canonical f (non_empty_links d.universal_url d.deeplink d.checkout_url)
          d.qr_content d.qr_code_link (links-canonical f d.universal_url d.deeplink d.checkout_url),
      refl,
    )
