-- ===== src/Control/Revisions.antt =====
-- The revisions that accepted updates get, over every history of calls, and which of the accepted
-- configurations the runner is handed.
use mathlib.Core.List.{Sublist, sublist-append_right}
use mathlib.Core.List.Sublist
use minicore_runtime.Base.{
  ℕ, zero, suc, ◌+◌, ◌-◌, ◌^◌, ◌<◌, ◌≤◌, ◌≡◌, refl, Bool, true, false, List, [], ◌∷◌, ◌++◌, map,
  ◌⊎◌, Option, none, some, arith, ◌∙◌, ap, ok, err, length, u64_mod, Bool-cases, inl, inr,
}
use minicore_runtime.Ids.{RuntimeId}
use minicore_runtime.Control.{
  ConfigRevision, next, UpdateError, PendingConfig, Control, phase_active, new, update, take_config,
  begin_final, finish_once,
}
use minicore_runtime.Control.Calls.{
  Call, Reply, cancels, updates, takes_config, begins_final, finishes, sets_interaction, answers,
  updated, config_taken, sealed, step, replies,
}

module _ {Config Report : Type 0} where
  abbrev is_update : Call Config Report → Bool
  is_update (updates config) = true
  is_update _ = false

  abbrev moves_config : Call Config Report → Bool
  moves_config (updates config) = true
  moves_config takes_config = true
  moves_config begins_final = true
  moves_config finishes = true
  moves_config _ = false

-- The accepted updates of a history, with their revisions.
abbrev pub accepted :
    {Config Report : Type 0}
    → List (Call Config Report)
    → List (Reply Config)
    → List (PendingConfig Config)
accepted (updates config ∷ calls) (updated (ok revision) ∷ rs) =
    record { revision = revision; config = config } ∷ accepted calls rs
accepted (call ∷ calls) (r ∷ rs) = accepted calls rs
accepted _ _ = []

abbrev pub optional : {A : Type 0} → Option A → List A
optional none = []
optional (some a) = a ∷ []

-- The configurations that a history hands out, to be applied or to be dropped.
abbrev pub handed : {Config : Type 0} → List (Reply Config) → List (PendingConfig Config)
handed [] = []
handed (config_taken pending ∷ rs) = optional pending ++ handed rs
handed (sealed seal pending ∷ rs) = optional pending ++ handed rs
handed (_ ∷ rs) = handed rs

-- The revisions of `n` accepted updates, from `first` on.
abbrev pub revisions_from : ℕ → ConfigRevision → List ConfigRevision
revisions_from zero first = []
revisions_from (suc n) first = first ∷ revisions_from n (next first)

-- first, first + 1, …, `n` numbers in all.
abbrev pub count_from : ℕ → ℕ → List ℕ
count_from zero first = []
count_from (suc n) first = first ∷ count_from n (first + 1)

revisions_from-count_from :
    (n first : ℕ) → first + n ≤ u64_mod → revisions_from n first ≡ count_from n first
unfolding next
revisions_from-count_from zero first h = refl
revisions_from-count_from (suc zero) first h = refl
revisions_from-count_from (suc (suc n)) first h =
    let step_up : next first ≡ first + 1 = ground arith in
    rw step_up (ap (◌∷◌ first) (revisions_from-count_from (suc n) (first + 1) (omega arith)))

module _ {Config Report : Type 0} (valid : Config → Bool) where
  abbrev pub history :
      Control Config Report → List (Call Config Report) → List (PendingConfig Config)
  history c calls = accepted calls (replies valid c calls)

  -- The state after an accepted update.
  abbrev accept : Config → Control Config Report → Control Config Report
  accept config c = record c {
    next_revision = next c.next_revision;
    pending_config = some (record { revision = c.next_revision; config = config });
  }

  -- An update either leaves the state and returns an error, or is accepted.
  abbrev Updated : Config → Control Config Report → Type 0
  Updated config c =
      ((e : UpdateError) × (update valid config c ≡ (c, err e)))
      ⊎ (update valid config c ≡ (accept config c, ok c.next_revision))

  update-Updated : (config : Config) (c : Control Config Report) → Updated config c
  unfolding update
  update-Updated config c = elim (Bool-cases (phase_active c.state)) [
    | inr off ↦ inl (UpdateError.not_active, ground arith)
    | inl on ↦ elim (Bool-cases (valid config)) [
      | inr bad ↦ inl (UpdateError.invalid_config, ground arith)
      | inl good ↦ elim (Bool-cases c.accepting_updates) [
        | inr shut ↦ inl (UpdateError.not_active, ground arith)
        | inl accepting ↦ inr (ground arith)
      ]
    ]
  ]

  next_revision-step :
      (call : Call Config Report) (c : Control Config Report)
      → is_update call ≡ false
      → (step valid call c).0.next_revision ≡ c.next_revision
  unfolding step
  next_revision-step (updates config) c h = cc
  next_revision-step (cancels source) c h = ground arith
  next_revision-step (sets_interaction slot) c h = ground arith
  next_revision-step (answers id given) c h = ground arith
  next_revision-step _ c h = refl

  revisions_lem :
      (c : Control Config Report) (calls : List (Call Config Report)) (first : ConfigRevision)
      → c.next_revision ≡ first
      → map (λ p. p.revision) (history c calls) ≡ revisions_from (length (history c calls)) first
  unfolding replies step
  revisions_lem c [] first h = refl
  revisions_lem c (updates config ∷ calls) first h = elim (update-Updated config c) [
    | inl (e, same) ↦ rw same (revisions_lem c calls first h)
    | inr new_ ↦ rw new_ (cc (revisions_lem (accept config c) calls (next first) (ap next h), h))
  ]
  revisions_lem c (call ∷ calls) first h =
      revisions_lem (step valid call c).0 calls first (next_revision-step call c refl ∙ h)

  pending_config-step :
      (call : Call Config Report) (c : Control Config Report)
      → moves_config call ≡ false
      → (step valid call c).0.pending_config ≡ c.pending_config
  unfolding step
  pending_config-step (updates config) c h = cc
  pending_config-step takes_config c h = cc
  pending_config-step begins_final c h = cc
  pending_config-step finishes c h = cc
  pending_config-step (cancels source) c h = ground arith
  pending_config-step (sets_interaction slot) c h = ground arith
  pending_config-step (answers id given) c h = ground arith
  pending_config-step _ c h = refl

  handed_lem :
      (c : Control Config Report) (calls : List (Call Config Report))
      (pending : Option (PendingConfig Config))
      → c.pending_config ≡ pending
      → Sublist (handed (replies valid c calls)) (optional pending ++ history c calls)
  unfolding replies step
  handed_lem c [] pending h = sublist-append_right (optional pending) []
  handed_lem c (updates config ∷ calls) pending h = elim (update-Updated config c) [
    | inl (e, same) ↦ rw same (handed_lem c calls pending h)
    | inr new_ ↦ rw new_ (
        Sublist.trans (handed_lem (accept config c) calls (accept config c).pending_config refl)
          (sublist-append_right (optional pending) _))
  ]
  handed_lem c (takes_config ∷ calls) pending h = rw h (
      Sublist.append (Sublist.refl (optional pending))
        (handed_lem (take_config c).0 calls none refl))
  handed_lem c (begins_final ∷ calls) pending h = rw h (
      Sublist.append (Sublist.refl (optional pending))
        (handed_lem (begin_final c).0 calls none refl))
  handed_lem c (finishes ∷ calls) pending h = rw h (
      Sublist.append (Sublist.refl (optional pending))
        (handed_lem (finish_once c).0 calls none refl))
  handed_lem c (call ∷ calls) pending h =
      handed_lem (step valid call c).0 calls pending (pending_config-step call c refl ∙ h)

  -- The accepted updates of any history of a new loop have the revisions 1, 2, 3 and so on, with no
  -- gap and none twice, as long as they are fewer than 2 ^ 64 - 1.
  pub revisions_consecutive :
      (id : RuntimeId) (calls : List (Call Config Report))
      → length (history (new id) calls) < 2 ^ 64 - 1
      → map (λ p. p.revision) (history (new id) calls)
        ≡ count_from (length (history (new id) calls)) 1
  unfolding new next
  revisions_consecutive id calls h =
      revisions_lem (new id) calls 1 refl ∙ revisions_from-count_from _ 1 (omega arith)

  -- The configurations handed to the runner, at a request boundary or at the end, are among the
  -- accepted updates of the history, in their order, each at most once, with the revision that its
  -- caller was given; the others were replaced by a later update before they were taken.
  pub handed-sublist :
      (id : RuntimeId) (calls : List (Call Config Report))
      → Sublist (handed (replies valid (new id) calls)) (history (new id) calls)
  unfolding new
  handed-sublist id calls = handed_lem (new id) calls none refl
