-- ===== src/Metrics/Order.antt =====
-- The text of the registry, and the order in which Go iterates its maps.
use mathlib.Core.List.Permᴰ
use mathlib.Core.List.{Permᴰ, append_assoc}
use mathlib.Core.Path.{subst}
use dinapay_connector_binanc.Shared.{
  Text, ◌≡◌, refl, ◌∙◌, ap, List, [], ◌∷◌, ◌++◌, true, false, arith,
}
use dinapay_connector_binanc.Metrics.{Registry}
use dinapay_connector_binanc.Strings.{text_leb}
use dinapay_connector_binanc.Metrics.Exposition.{
  Formats, insert_text, sort_texts, join_lines, flat_map, lines_of, request_line, duration_lines,
  provider_line, provider_duration_lines, operation_line, gauge_line, exposition,
}

leb_total : (s t : Text) → text_leb s t ≡ false → text_leb t s ≡ true
unfolding text_leb
leb_total [] t h = cc
leb_total (a ∷ s) [] h = refl
leb_total (a ∷ s) (b ∷ t) h = ground (arith, leb_total s t)

leb_antisym : (s t : Text) → text_leb s t ≡ true → text_leb t s ≡ true → s ≡ t
unfolding text_leb
leb_antisym [] [] h k = refl
leb_antisym [] (b ∷ t) h k = cc
leb_antisym (a ∷ s) [] h k = cc
leb_antisym (a ∷ s) (b ∷ t) h k = ground (arith, leb_antisym s t)

leb_trans : (s t u : Text) → text_leb s t ≡ true → text_leb t u ≡ true → text_leb s u ≡ true
unfolding text_leb
leb_trans [] t u h k = refl
leb_trans (a ∷ s) [] u h k = cc
leb_trans (a ∷ s) (b ∷ t) [] h k = cc
leb_trans (a ∷ s) (b ∷ t) (c ∷ u) h k = ground (arith, leb_trans s t u)

insert_comm :
    (s t : Text) (us : List Text)
    → insert_text s (insert_text t us) ≡ insert_text t (insert_text s us)
unfolding insert_text
insert_comm s t [] = ground (arith, leb_total s t, leb_antisym s t)
insert_comm s t (u ∷ us) = ground (
  arith,
  insert_comm s t us,
  leb_total s t,
  leb_antisym s t,
  leb_total s u,
  leb_total t u,
  leb_trans s t u,
  leb_trans t s u,
  leb_trans s u t,
  leb_trans t u s,
)

-- Sorted texts do not depend on the order of the unsorted ones.
sort_texts-perm : {ts us : List Text} → Permᴰ ts us → sort_texts ts ≡ sort_texts us
unfolding sort_texts
sort_texts-perm Permᴰ.nil = refl
sort_texts-perm (Permᴰ.cons e p) = cc (e, sort_texts-perm p)
sort_texts-perm (Permᴰ.swap {a} {b} {a'} {b'} {l} e f) = insert_comm a b (sort_texts l) ∙ cc (e, f)
sort_texts-perm (Permᴰ.trans p q) = sort_texts-perm p ∙ sort_texts-perm q

append-swap : (x y r : List Text) → Permᴰ (x ++ (y ++ r)) (y ++ (x ++ r))
append-swap x y r =
    subst (λ l. Permᴰ l (y ++ (x ++ r))) (append_assoc x y r)
      (subst (Permᴰ ((x ++ y) ++ r)) (append_assoc y x r)
        (Permᴰ.append_right r (Permᴰ.append_comm x y)))

flat_map-perm {ℓ} :
    {A : Type ℓ} (f : A → List Text) {xs ys : List A}
    → Permᴰ xs ys
    → Permᴰ (flat_map f xs) (flat_map f ys)
unfolding flat_map
flat_map-perm f Permᴰ.nil = Permᴰ.nil
flat_map-perm f (Permᴰ.cons {a} {b} {l₁} {l₂} e p) =
    subst (λ c. Permᴰ (f a ++ flat_map f l₁) (f c ++ flat_map f l₂)) e
      (Permᴰ.append_left (f a) (flat_map-perm f p))
flat_map-perm f (Permᴰ.swap {a} {b} {a'} {b'} {l} e g) =
    subst (λ c. Permᴰ (f a ++ (f b ++ flat_map f l)) (f c ++ (f b' ++ flat_map f l))) g
      (subst (λ c. Permᴰ (f a ++ (f b ++ flat_map f l)) (f b ++ (f c ++ flat_map f l))) e
        (append-swap (f a) (f b) (flat_map f l)))
flat_map-perm f (Permᴰ.trans p q) = Permᴰ.trans (flat_map-perm f p) (flat_map-perm f q)

append-perm : {a b c d : List Text} → Permᴰ a b → Permᴰ c d → Permᴰ (a ++ c) (b ++ d)
append-perm {b} {c} p q = Permᴰ.trans (Permᴰ.append_right c p) (Permᴰ.append_left b q)

-- Two registries with the same entries in their maps, in any orders, have the same text.
pub exposition-perm :
    (f : Formats) (r s : Registry)
    → Permᴰ r.requests s.requests
    → Permᴰ r.durations s.durations
    → Permᴰ r.provider s.provider
    → Permᴰ r.provider_durations s.provider_durations
    → Permᴰ r.operations s.operations
    → Permᴰ r.gauges s.gauges
    → exposition f r ≡ exposition f s
unfolding exposition lines_of
exposition-perm f r s requests durations provider provider_durations operations gauges =
    ap (λ ts. join_lines ts ++ 10 ∷ [])
      (sort_texts-perm (
        append-perm
          (append-perm
            (append-perm
              (append-perm
                (append-perm (Permᴰ.map (request_line f) requests)
                  (flat_map-perm (duration_lines f) durations))
                (Permᴰ.map (provider_line f) provider))
              (flat_map-perm (provider_duration_lines f) provider_durations))
            (Permᴰ.map (operation_line f) operations))
          (Permᴰ.map (gauge_line f) gauges)))
