-- ===== src/Transport/Streams.antt =====
-- Two streams of frames that reach one receiver of include/jay/transport_protocol.hpp at a time.
use mathlib.Core.List.{append_assoc, append-nil}
use jay.Base.{
  ℕ, ◌≡◌, ◌≢◌, refl, ap, sym, subst, ◌∙◌, Bool, true, false, ◌⊎◌, inl, inr, some, List, [], ◌∷◌,
  ◌++◌,
}
use jay.Frame.{Frame}
use jay.Header.Canary.{Canary}
use jay.Transport.Defs.{Tp, Key, Data, session_at}
use jay.Transport.Receive.{on_can_frame}
use jay.Transport.Delivery.{receive_all, receive_all-step}

-- One list of both: `true` takes the next element of the first, `false` one of the second, and what
-- is left at the end follows in order. Every interleaving has such a list of choices.
unfoldable pub merge {ℓ} : {A : Type ℓ} → List Bool → List A → List A → List A
merge [] xs ys = xs ++ ys
merge (b ∷ bs) [] ys = ys
merge (b ∷ bs) (x ∷ xs) [] = x ∷ xs
merge (true ∷ bs) (x ∷ xs) (y ∷ ys) = x ∷ merge bs xs (y ∷ ys)
merge (false ∷ bs) (x ∷ xs) (y ∷ ys) = y ∷ merge bs (x ∷ xs) ys

merge-nil {ℓ} : {A : Type ℓ} (bs : List Bool) (ys : List A) → merge bs [] ys ≡ ys
unfolding merge
merge-nil [] ys = refl
merge-nil (b ∷ bs) ys = refl

merge-nil_right {ℓ} : {A : Type ℓ} (bs : List Bool) (xs : List A) → merge bs xs [] ≡ xs ++ []
unfolding merge
merge-nil_right [] xs = refl
merge-nil_right (b ∷ bs) [] = refl
merge-nil_right (b ∷ bs) (x ∷ xs) = sym (append-nil (x ∷ xs))

-- Two elements are added behind a list, in one order or the other.
abbrev pub Both {ℓ} : {A : Type ℓ} → A → A → List A → List A → Type ℓ
Both a b before after = (after ≡ before ++ a ∷ b ∷ []) ⊎ (after ≡ before ++ b ∷ a ∷ [])

module _ (c : Canary) (takes : ℕ → Bool) where
  -- What a stream looks at, but the session of one key.
  pub record Beside (key : Key) (t t' : Tp c) : Type 0 where
    pub others : (k : Key) → k ≢ key → session_at c t' k ≡ session_at c t k
    pub callback : t'.has_rx_callback ≡ t.has_rx_callback

  Beside_refl : (key : Key) (t : Tp c) → Beside key t t
  Beside_refl key t = record { others = λ k other. refl; callback = refl }

  Beside_trans : (key : Key) (t u v : Tp c) → Beside key t u → Beside key u v → Beside key t v
  Beside_trans key t u v first next = record {
    others = λ k other. next.others k other ∙ first.others k other;
    callback = next.callback ∙ first.callback;
  }

  -- A predicate on the frames to come that says they lead to one message, by the session of the key.
  pub record IsStream (key : Key) (d : Data c) (Coming : Tp c → List (Frame c) → Type 0)
      : Type 0 where
    pub coming : (t : Tp c) → ¬ Coming t []
    pub step :
        (t : Tp c) (f : Frame c) (fs : List (Frame c))
        → Coming t (f ∷ fs)
        → (t' : Tp c) × (on_can_frame c takes f t ≡ some t')
          × Beside key t t'
          × (((t'.delivered ≡ t.delivered) × Coming t' fs)
              ⊎ ((fs ≡ []) × (t'.delivered ≡ t.delivered ++ d ∷ [])))
    pub stable :
        (t t' : Tp c) (fs : List (Frame c))
        → session_at c t' key ≡ session_at c t key
        → t'.has_rx_callback ≡ t.has_rx_callback
        → Coming t fs
        → Coming t' fs

  module _ (key : Key) (d : Data c) (Coming : Tp c → List (Frame c) → Type 0)
      (stream : IsStream key d Coming) where
    alone :
        (fs gs : List (Frame c)) (t : Tp c)
        → Coming t fs
        → (t' : Tp c) × (receive_all c takes (fs ++ gs) t ≡ receive_all c takes gs t')
          × Beside key t t'
          × (t'.delivered ≡ t.delivered ++ d ∷ [])
    alone [] gs t k = absurd (stream.coming t k)
    alone (f ∷ fs) gs t k =
        let (u, e, beside, then') = stream.step t f fs k in
        elim then' [
          | inl (same, more) ↦
              let (v, run, beside', got) = alone fs gs u more in
              (
                v,
                receive_all-step c takes f (fs ++ gs) t u e ∙ run,
                Beside_trans key t u v beside beside',
                got ∙ ap (λ ds. ds ++ d ∷ []) same,
              )
          | inr (last, got) ↦ (
            u,
            receive_all-step c takes f (fs ++ gs) t u e
                ∙ ap (λ hs. receive_all c takes (hs ++ gs) u) last,
            beside,
            got,
          )
        ]

  module _ (key_a key_b : Key) (apart : key_a ≢ key_b) (a b : Data c)
      (Coming_a Coming_b : Tp c → List (Frame c) → Type 0) (stream_a : IsStream key_a a Coming_a)
      (stream_b : IsStream key_b b Coming_b) where
    undisturbed_a :
        (t u : Tp c) (fs : List (Frame c)) → Beside key_b t u → Coming_a t fs → Coming_a u fs
    undisturbed_a t u fs beside k =
        stream_a.stable t u fs (beside.others key_a apart) beside.callback k

    undisturbed_b :
        (t u : Tp c) (fs : List (Frame c)) → Beside key_a t u → Coming_b t fs → Coming_b u fs
    undisturbed_b t u fs beside k =
        stream_b.stable t u fs (beside.others key_b (λ e. apart (sym e))) beside.callback k

    Both-same :
        (before before' after : List (Data c))
        → before' ≡ before
        → Both a b before' after
        → Both a b before after
    Both-same before before' after e k = subst (λ ds. Both a b ds after) e k

    rest_of_a :
        (fs : List (Frame c)) (bs : List Bool) (t u : Tp c)
        → Coming_a u fs
        → u.delivered ≡ t.delivered ++ b ∷ []
        → (v : Tp c) × (receive_all c takes (merge bs fs []) u ≡ some v)
          × Both a b t.delivered v.delivered
    unfolding receive_all
    rest_of_a fs bs t u k e =
        let (v, run, _, got) = alone key_a a Coming_a stream_a fs [] u k in
        (
          v,
          ap (λ hs. receive_all c takes hs u) (merge-nil_right bs fs) ∙ run,
          inr (got ∙ ap (λ ds. ds ++ a ∷ []) e ∙ append_assoc t.delivered (b ∷ []) (a ∷ [])),
        )

    rest_of_b :
        (fs : List (Frame c)) (bs : List Bool) (t u : Tp c)
        → Coming_b u fs
        → u.delivered ≡ t.delivered ++ a ∷ []
        → (v : Tp c) × (receive_all c takes (merge bs [] fs) u ≡ some v)
          × Both a b t.delivered v.delivered
    unfolding receive_all
    rest_of_b fs bs t u k e =
        let (v, run, _, got) = alone key_b b Coming_b stream_b fs [] u k in
        (
          v,
          ap (λ hs. receive_all c takes hs u) (merge-nil bs fs ∙ sym (append-nil fs)) ∙ run,
          inl (got ∙ ap (λ ds. ds ++ b ∷ []) e ∙ append_assoc t.delivered (a ∷ []) (b ∷ [])),
        )

    -- Streams of two keys do not disturb each other, in whatever order their frames come.
    pub receive_all-merge :
        (bs : List Bool) (fs gs : List (Frame c)) (t : Tp c)
        → Coming_a t fs
        → Coming_b t gs
        → (v : Tp c) × (receive_all c takes (merge bs fs gs) t ≡ some v)
          × Both a b t.delivered v.delivered
    unfolding merge
    receive_all-merge [] fs gs t k l =
        let (u, run, beside, got) = alone key_a a Coming_a stream_a fs gs t k in
        let (v, rest, both) = rest_of_b gs [] t u (undisturbed_b t u gs beside l) got in
        (v, run ∙ rest, both)
    receive_all-merge (true ∷ bs) [] gs t k l = absurd (stream_a.coming t k)
    receive_all-merge (false ∷ bs) [] gs t k l = absurd (stream_a.coming t k)
    receive_all-merge (true ∷ bs) (f ∷ fs) [] t k l = absurd (stream_b.coming t l)
    receive_all-merge (false ∷ bs) (f ∷ fs) [] t k l = absurd (stream_b.coming t l)
    receive_all-merge (true ∷ bs) (f ∷ fs) (g ∷ gs) t k l =
        let (u, e, beside, then') = stream_a.step t f fs k in
        let l' = undisturbed_b t u (g ∷ gs) beside l in
        let go = receive_all-step c takes f (merge bs fs (g ∷ gs)) t u e in
        elim then' [
          | inl (same, more) ↦
              let (v, run, both) = receive_all-merge bs fs (g ∷ gs) u more l' in
              (v, go ∙ run, Both-same t.delivered u.delivered v.delivered same both)
          | inr (last, got) ↦
              let (v, run, both) = rest_of_b (g ∷ gs) bs t u l' got in
              (v, go ∙ ap (λ hs. receive_all c takes (merge bs hs (g ∷ gs)) u) last ∙ run, both)
        ]
    receive_all-merge (false ∷ bs) (f ∷ fs) (g ∷ gs) t k l =
        let (u, e, beside, then') = stream_b.step t g gs l in
        let k' = undisturbed_a t u (f ∷ fs) beside k in
        let go = receive_all-step c takes g (merge bs (f ∷ fs) gs) t u e in
        elim then' [
          | inl (same, more) ↦
              let (v, run, both) = receive_all-merge bs (f ∷ fs) gs u k' more in
              (v, go ∙ run, Both-same t.delivered u.delivered v.delivered same both)
          | inr (last, got) ↦
              let (v, run, both) = rest_of_a (f ∷ fs) bs t u k' got in
              (v, go ∙ ap (λ hs. receive_all c takes (merge bs (f ∷ fs) hs) u) last ∙ run, both)
        ]
