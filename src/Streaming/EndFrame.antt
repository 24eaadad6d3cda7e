-- ===== src/Streaming/EndFrame.antt =====
-- The frame that ends a stream, and the others: `_finish_event` of
-- backend/app/services/streaming.py.
use zangpu.Base.{
  ℕ, ◌≡◌, refl, sym, ap, ◌∙◌, Bool, true, false, not, List, [], ◌∷◌, ◌++◌, Bool-cases, inl, inr,
}
use zangpu.Signing.Canonical.{same_text}
use zangpu.Signing.Genuine.{same_text-eq, same_text_refl}
use zangpu.Streaming.{done_data, done_frame, frame_of}

-- Not the last frame.
abbrev pub is_plain : List ℕ → Bool
is_plain frame = not (same_text frame done_frame)

abbrev cut_end : List ℕ → List ℕ
cut_end [] = []
cut_end (c ∷ []) = []
cut_end (c ∷ d ∷ []) = []
cut_end (c ∷ d ∷ e ∷ text) = c ∷ cut_end (d ∷ e ∷ text)

cut_end-append : (text : List ℕ) → cut_end (text ++ (10 ∷ 10 ∷ [])) ≡ text
cut_end-append [] = refl
cut_end-append (c ∷ []) = refl
cut_end-append (c ∷ d ∷ []) = refl
cut_end-append (c ∷ d ∷ e ∷ text) = ap (λ t. c ∷ t) (cut_end-append (d ∷ e ∷ text))

abbrev cut_start : List ℕ → List ℕ
cut_start (a ∷ b ∷ c ∷ d ∷ e ∷ f ∷ text) = text
cut_start text = text

pub frame_of-is_plain :
    (data_text : List ℕ)
    → same_text data_text done_data ≡ false
    → is_plain (frame_of data_text) ≡ true
frame_of-is_plain data_text h = elim (Bool-cases (same_text (frame_of data_text) done_frame)) [
  | inr other ↦ rw other refl
  | inl same ↦
      let frames = same_text-eq (frame_of data_text) done_frame same in
      let texts : data_text ≡ done_data =
        sym (cut_end-append data_text) ∙ ap (λ f. cut_end (cut_start f)) frames in
      let reflexive = same_text_refl done_data in
      let again : same_text data_text done_data ≡ true =
        ap (λ t. same_text t done_data) texts ∙ reflexive in
      cc
]
