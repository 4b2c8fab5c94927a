-- ===== src/Ui/Password/Locked.antt =====
-- The prompt of a locked room has no key that submits the text.
use underground_node_network.Base.{
  ◌≡◌, ◌≢◌, ◌⊎◌, inl, inr, refl, [], ◌∷◌, List, Outcome, returns, true, false, Option, some, none,
  Bool-cases, arith, sym,
}
use underground_node_network.Text.{Text, text_eq, text_eq_iff}
use underground_node_network.Ui.LineEdit.{Line}
use underground_node_network.Ui.LineEdit.Within.{Within}
use underground_node_network.Ui.Password.{
  Event, key, resize, finished, closed, cancels, ui_run, passes_lock,
}
use underground_node_network.Ui.Password.Valid.{ui_edit-Within}

-- Still waiting, or the empty text.
abbrev pub Empty : Outcome (Option Text) → Type 0
Empty m = (m ≡ returns none) ⊎ (m ≡ returns (some []))

ui_run-Empty : (l : Line) (es : List Event) → Within l → Empty (ui_run l es)
unfolding ui_run
ui_run-Empty l [] v = inl refl
ui_run-Empty l (closed ∷ es) v = inl refl
ui_run-Empty l (finished ∷ es) v = inr refl
ui_run-Empty l (resize ∷ es) v = ui_run-Empty l es v
ui_run-Empty l (key k ∷ es) v = elim (Bool-cases (cancels k)) [
  | inl done ↦ rw (done, ui_run) (inr refl)
  | inr more ↦
      let (m, e, w) = ui_edit-Within l k v in rw (more, ui_run) (rw e (ui_run-Empty m es w))
]

-- The empty text is no key of a locked room.
not_the_key : (lock_key : Text) → lock_key ≢ [] → text_eq [] lock_key ≡ false
not_the_key lock_key h = elim (Bool-cases (text_eq [] lock_key)) [
  | inl e ↦ absurd (h (sym ((text_eq_iff [] lock_key).0 e)))
  | inr e ↦ e
]

is_locked : (lock_key : Text) → lock_key ≢ [] → text_eq lock_key [] ≡ false
is_locked lock_key h = elim (Bool-cases (text_eq lock_key [])) [
  | inl e ↦ absurd (h ((text_eq_iff lock_key []).0 e))
  | inr e ↦ e
]

-- The prompt of a locked room, once its screen is set up, lets nobody in but the operator: whatever
-- is typed, also the right key and Enter, it still waits or has refused.
pub passes_lock-refuses :
    (lock_key : Text) (es : List Event)
    → lock_key ≢ []
    → (passes_lock lock_key false false true es ≡ returns none)
      ⊎ (passes_lock lock_key false false true es ≡ returns (some false))
unfolding passes_lock
passes_lock-refuses lock_key es h =
    rw (is_locked lock_key h)
      (elim (ui_run-Empty (record { value = []; cursor = 0 }) es (omega arith)) [
        | inl waits ↦ inl (rw waits)
        | inr empty ↦ inr (rw (empty, not_the_key lock_key h))
      ])
