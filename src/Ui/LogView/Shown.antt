-- ===== src/Ui/LogView/Shown.antt =====
-- What a log view draws.
use underground_node_network.Base.{
  ℕ, ◌-◌, ◌≤◌, ◌<◌, ◌≡◌, refl, sym, ap, ◌∙◌, subst, [], ◌∷◌, ◌++◌, List, true, false, not, ◌&&◌,
  returns, length, take, length-append, append-nil, append_assoc, ltb, ◌==◌, same, arith,
  Bool-cases, inl, inr, zero, suc,
}
use underground_node_network.Base.Int.{ℤ, ℤ_eq, int_eq_iff}
use underground_node_network.Text.{Text}
use underground_node_network.Room.{Message}
use underground_node_network.Ui.LogView.{
  LogView, new_log_view, add_log_message, page_up, page_down, limit_scroll, is_empty, wrap_all,
  update_physical_lines, draw, LogCall, adds, pages_up, pages_down, draws, log_step, log_run,
}
use underground_node_network.Ui.LogView.Window.{IsWindow, visible-IsWindow}

take-all : {A : Type 0} (xs : List A) → take (length xs) xs ≡ xs
take-all [] = refl
take-all (x ∷ xs) = ap (λ l. x ∷ l) (take-all xs)

take-append : {A : Type 0} (n : ℕ) (xs ys : List A) → n ≤ length xs → take n (xs ++ ys) ≡ take n xs
take-append zero xs ys h = refl
take-append (suc n) [] ys h = absurd (omega arith)
take-append (suc n) (x ∷ xs) ys h = ap (λ l. x ∷ l) (take-append n xs ys (omega arith))

-- The messages that the calls add.
abbrev pub added : List LogCall → List Message
added [] = []
added (adds text kind ∷ cs) = record { text = text; kind = kind } ∷ added cs
added (pages_up ∷ cs) = added cs
added (pages_down ∷ cs) = added cs
added (draws w h ∷ cs) = added cs

empty-nil : (ms : List Message) → is_empty ms ≡ true → ms ≡ []
unfolding is_empty
empty-nil [] e = refl
empty-nil (m ∷ ms) e = cc

module _ (wrap : Text → ℤ → List Text) where
  -- The lines are those of the messages that were there when they were made.
  abbrev IsCached : LogView → Type 0
  IsCached v =
      (v.last_msg_count ≤ length v.messages)
      × (v.physical_lines ≡ wrap_all wrap v.width (take v.last_msg_count v.messages))

  -- The lines are up to date, for the width `w`.
  abbrev IsFresh : ℤ → LogView → LogView → Type 0
  IsFresh w v u =
      IsCached u
      × (u.physical_lines ≡ wrap_all wrap w v.messages)
      × (u.messages ≡ v.messages)
      × (u.scroll_offset ≡ v.scroll_offset)

  update-IsFresh : (w : ℤ) (v : LogView) → IsCached v → IsFresh w v (update_physical_lines wrap w v)
  unfolding update_physical_lines
  update-IsFresh w v (le, lines) =
      elim (Bool-cases (
        same w v.width
        && length v.messages == v.last_msg_count
        && not (is_empty v.physical_lines))) [
          | inl kept ↦
              let is_w : w ≡ v.width = ground (arith, int_eq_iff w v.width) in
              let all_of : v.last_msg_count ≡ length v.messages = ground arith in
              rw (update_physical_lines, kept)
                (
                  (le, lines),
                  lines
                      ∙ ap (λ n. wrap_all wrap v.width (take n v.messages)) all_of
                      ∙ ap (wrap_all wrap v.width) (take-all v.messages)
                      ∙ ap (λ x. wrap_all wrap x v.messages) (sym is_w),
                  refl,
                  refl,
                )
          | inr stale ↦
              rw (update_physical_lines, stale)
                ((omega arith, ap (wrap_all wrap w) (sym (take-all v.messages))), refl, refl, refl)
        ]

  -- What a drawing makes of a view, and shows of it.
  abbrev pub Draws : ℤ → ℕ → LogView → Type 0
  Draws w h v =
      (u : LogView) × (shown : List Message) × (draw wrap w h v ≡ returns (u, shown))
      × IsWindow (wrap_all wrap w v.messages) v.scroll_offset h shown

  fresh-IsWindow :
      (w : ℤ) (h : ℕ) (v u : LogView) (shown : List Message)
      → IsFresh w v u
      → IsWindow u.physical_lines u.scroll_offset h shown
      → IsWindow (wrap_all wrap w v.messages) v.scroll_offset h shown
  fresh-IsWindow w h v u shown (_, lines, _, offset) window =
      subst (λ l. IsWindow l v.scroll_offset h shown) lines
        (subst (λ n. IsWindow u.physical_lines n h shown) offset window)

  draw-Draws :
      (w : ℤ) (h : ℕ) (v : LogView)
      → IsCached v
      → 0 < h
      → (u : LogView) × (shown : List Message) × (draw wrap w h v ≡ returns (u, shown))
        × IsFresh w v u
        × IsWindow (wrap_all wrap w v.messages) v.scroll_offset h shown
  unfolding draw
  draw-Draws w h v cached high =
      let u = update_physical_lines wrap w v in
      let fresh = update-IsFresh w v cached in
      let some_h : (h == 0) ≡ false = ground arith in
      elim (Bool-cases (is_empty u.physical_lines)) [
        | inl none_there ↦
            let no_lines : u.physical_lines ≡ [] = empty-nil u.physical_lines none_there in
            let window : IsWindow [] u.scroll_offset h [] =
              ([], [], refl, omega arith, omega arith) in
            (
              u,
              [],
              rw (draw, some_h, none_there) refl,
              fresh,
              fresh-IsWindow w h v u [] fresh
                  (subst (λ l. IsWindow l u.scroll_offset h []) (sym no_lines) window),
            )
        | inr some_there ↦
            let (shown, seen, window) = visible-IsWindow wrap h u in
            (
              u,
              shown,
              rw (draw, some_h, some_there, seen) refl,
              fresh,
              fresh-IsWindow w h v u shown fresh window,
            )
      ]

  limit-IsCached : (h : ℕ) (v : LogView) → IsCached v → IsCached (limit_scroll h v)
  unfolding limit_scroll
  limit-IsCached h v c = elim (Bool-cases (ltb (length v.physical_lines - h) v.scroll_offset)) [
    | inl far ↦ rw (limit_scroll, far) c
    | inr near ↦ rw (limit_scroll, near) c
  ]

  limit-messages : (h : ℕ) (v : LogView) → (limit_scroll h v).messages ≡ v.messages
  unfolding limit_scroll
  limit-messages h v = elim (Bool-cases (ltb (length v.physical_lines - h) v.scroll_offset)) [
    | inl far ↦ rw (limit_scroll, far) refl
    | inr near ↦ rw (limit_scroll, near) refl
  ]

  step-IsCached :
      (c : LogCall) (v : LogView)
      → IsCached v
      → (u : LogView) × (log_step wrap c v ≡ returns u)
        × IsCached u
        × (u.messages ≡ v.messages ++ added (c ∷ []))
  unfolding log_step add_log_message page_up page_down
  step-IsCached (adds text kind) v (le, lines) =
      let m : Message = record { text = text; kind = kind } in
      (
        add_log_message text kind v,
        refl,
        (
          omega (arith, length-append v.messages (m ∷ [])),
          lines
              ∙ ap (wrap_all wrap v.width)
                  (sym (take-append v.last_msg_count v.messages (m ∷ []) le)),
        ),
        refl,
      )
  step-IsCached pages_up v c = (page_up v, refl, c, sym (append-nil v.messages))
  step-IsCached pages_down v c = (page_down v, refl, c, sym (append-nil v.messages))
  step-IsCached (draws w zero) v c = (v, refl, c, sym (append-nil v.messages))
  step-IsCached (draws w (suc h)) v c =
      let x = limit_scroll (suc h) v in
      let some_h : (suc h == 0) ≡ false = ground arith in
      let (u, shown, drawn, (cached, _, kept, _), _) =
        draw-Draws w (suc h) x (limit-IsCached (suc h) v c) (omega arith) in
      (
        u,
        rw (log_step, some_h, drawn) refl,
        cached,
        kept ∙ limit-messages (suc h) v ∙ sym (append-nil v.messages),
      )

  added-append : (c : LogCall) (cs : List LogCall) → added (c ∷ []) ++ added cs ≡ added (c ∷ cs)
  added-append (adds text kind) cs = refl
  added-append pages_up cs = refl
  added-append pages_down cs = refl
  added-append (draws w h) cs = refl

  run-IsCached :
      (cs : List LogCall) (v : LogView)
      → IsCached v
      → (u : LogView) × (log_run wrap cs v ≡ returns u)
        × IsCached u
        × (u.messages ≡ v.messages ++ added cs)
  unfolding log_run
  run-IsCached [] v c = (v, refl, c, sym (append-nil v.messages))
  run-IsCached (call ∷ cs) v c =
      let (x, stepped, cached, one) = step-IsCached call v c in
      let (u, ran, cached', all) = run-IsCached cs x cached in
      (
        u,
        rw (log_run, stepped) ran,
        cached',
        all
            ∙ ap (λ l. l ++ added cs) one
            ∙ append_assoc v.messages (added (call ∷ [])) (added cs)
            ∙ ap (λ l. v.messages ++ l) (added-append call cs),
      )

  -- No calls make a log view panic. Whatever was called before, a screen of some height shows the
  -- messages that were added, wrapped for the width of this drawing: a window of that height, or all
  -- lines if they are fewer, with as many lines below as were scrolled, or all others if they are fewer.
  pub log_run-Draws :
      (cs : List LogCall) (w : ℤ) (h : ℕ)
      → 0 < h
      → (v : LogView) × (log_run wrap cs new_log_view ≡ returns v)
        × (v.messages ≡ added cs)
        × Draws w h v
  unfolding wrap_all
  log_run-Draws cs w h high =
      let (v, ran, cached, all) = run-IsCached cs new_log_view (omega arith, refl) in
      let (u, shown, drawn, _, window) = draw-Draws w h v cached high in
      (v, ran, all, (u, shown, drawn, window))
