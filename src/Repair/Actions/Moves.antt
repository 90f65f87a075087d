-- ===== src/Repair/Actions/Moves.antt =====
-- Which way an action of actions.py moves a request, and how far.
use lookfile.Prelude.{
  ℕ, ◌+◌, ◌≡◌, ◌⊎◌, inl, inr, refl, sym, ap, ◌∙◌, subst, Bool, true, arith, ◌==◌, nat_eq, list_eq,
  bool_eq, ==→eq, Result, ok, err, Error, >>=-eq-ok, if◌then◌else◌,
}
use lookfile.Domain.Identifiers.{Identifier}
use lookfile.Repair.Scales.{}
use lookfile.Repair.Scales.Steps.{IsRaised, IsLowered, step_up-IsRaised, step_down-IsLowered}
use lookfile.Repair.Models.{GenerationParameters, generation_parameters, RepairPatch, repair_patch}
use lookfile.Repair.Requests.{GenerationRequest}
use lookfile.Repair.Actions.{
  patch_for, change_parameters, increase_style_scale, decrease_style_scale, reduce_denoise,
  increase_structure, retry_sampling,
}
use lookfile.Repair.Actions.Patches.{IsBounded, generation_parameters_inv, repair_patch_inv}

-- What each action does to the parameters and the index of a request: one scale moves by a tenth of the
-- range, within a thousandth of it, or to its end, and the others stay; or the index moves on.
pub data Moves (p : GenerationParameters) (index : ℕ) (action : Identifier) (patch : RepairPatch)
    : Type 0 where
  style_up :
      action ≡ increase_style_scale
      → IsRaised p.ip_adapter_scale patch.after_parameters.ip_adapter_scale
      → patch.after_parameters
        ≡ record p { ip_adapter_scale = patch.after_parameters.ip_adapter_scale }
      → patch.after_variation_index ≡ index
      → Moves p index action patch
  style_down :
      action ≡ decrease_style_scale
      → IsLowered p.ip_adapter_scale patch.after_parameters.ip_adapter_scale
      → patch.after_parameters
        ≡ record p { ip_adapter_scale = patch.after_parameters.ip_adapter_scale }
      → patch.after_variation_index ≡ index
      → Moves p index action patch
  denoise_down :
      action ≡ reduce_denoise
      → IsLowered p.img2img_strength patch.after_parameters.img2img_strength
      → patch.after_parameters
        ≡ record p { img2img_strength = patch.after_parameters.img2img_strength }
      → patch.after_variation_index ≡ index
      → Moves p index action patch
  structure_up :
      action ≡ increase_structure
      → IsRaised p.controlnet_scale patch.after_parameters.controlnet_scale
      → patch.after_parameters
        ≡ record p { controlnet_scale = patch.after_parameters.controlnet_scale }
      → patch.after_variation_index ≡ index
      → Moves p index action patch
  resampled :
      action ≡ retry_sampling
      → patch.after_parameters ≡ p
      → patch.after_variation_index ≡ index + 1
      → Moves p index action patch

change_parameters_inv :
    (p q : GenerationParameters) (i : ℕ) {patch : RepairPatch}
    → change_parameters p q i ≡ ok patch
    → (patch ≡ record {
      before_parameters = p;
      after_parameters = q;
      before_variation_index = i;
      after_variation_index = i;
    })
      × IsBounded p
unfolding change_parameters repair_patch
change_parameters_inv p q i {patch} h =
    let (made, m, h1) = >>=-eq-ok (generation_parameters q) _ h in
    let (before, b, _) = >>=-eq-ok (generation_parameters p) _ h1 in
    let (same, _, _, _) = repair_patch_inv (patch_of made) h1 in
    (
      sym same ∙ ap patch_of (sym (generation_parameters_inv q m).0),
      (generation_parameters_inv p b).1,
    )
  where
    patch_of : GenerationParameters → RepairPatch
    patch_of after = record {
      before_parameters = p;
      after_parameters = after;
      before_variation_index = i;
      after_variation_index = i;
    }

retried_inv :
    (p : GenerationParameters) (i : ℕ) {patch : RepairPatch}
    → repair_patch (record {
      before_parameters = p;
      after_parameters = p;
      before_variation_index = i;
      after_variation_index = i + 1;
    })
      ≡ ok patch
    → (patch.after_parameters ≡ p) × (patch.after_variation_index ≡ i + 1)
retried_inv p i h =
    let (same, _, _, _) = repair_patch_inv _ h in
    (
      ap (λ (x : RepairPatch). x.after_parameters) (sym same),
      ap (λ (x : RepairPatch). x.after_variation_index) (sym same),
    )

-- The branch that a ladder of five tests takes, and that its test holds.
tested_ladder :
    (b c d e f : Bool) (v w x y z : Result RepairPatch) (last : Error) {patch : RepairPatch}
    → (if b
        then v
        else if c
        then w
        else if d
        then x
        else if e
        then y
        else if f
        then z
        else err last)
      ≡ ok patch
    → ((b ≡ true) × (v ≡ ok patch))
      ⊎ (((c ≡ true) × (w ≡ ok patch))
          ⊎ (((d ≡ true) × (x ≡ ok patch))
              ⊎ (((e ≡ true) × (y ≡ ok patch)) ⊎ ((f ≡ true) × (z ≡ ok patch)))))
tested_ladder b c d e f v w x y z last h = ground arith

module _ {Binding Material : Type 0} where
  -- An action moves what its name says and nothing else: it raises or lowers its scale by a tenth of
  -- the range, within a thousandth of it, or to the end of the range, or it moves the variation index
  -- on by one.
  pub patch_for-Moves :
      (request : GenerationRequest Binding Material) (action : Identifier) (patch : RepairPatch)
      → patch_for request action ≡ ok patch
      → Moves request.execution_parameters request.variation_index action patch
  unfolding patch_for
  patch_for-Moves request action patch h =
      elim (tested_ladder (action == increase_style_scale) (action == decrease_style_scale)
        (action == reduce_denoise) (action == increase_structure) (action == retry_sampling) _ _ _ _
        _ _ h) [
          | inl (t, k) ↦
              let (same, bounded) = change_parameters_inv p _ i k in
              subst (Moves p i action) (sym same) (
                style_up (==→eq action _ t) (step_up-IsRaised p.ip_adapter_scale bounded.style) refl
                  refl)
          | inr (inl (t, k)) ↦
              let (same, bounded) = change_parameters_inv p _ i k in
              subst (Moves p i action) (sym same) (
                style_down (==→eq action _ t) (step_down-IsLowered p.ip_adapter_scale bounded.style)
                  refl refl)
          | inr (inr (inl (t, k))) ↦
              let (same, bounded) = change_parameters_inv p _ i k in
              subst (Moves p i action) (sym same) (
                denoise_down (==→eq action _ t)
                  (step_down-IsLowered p.img2img_strength bounded.denoise) refl refl)
          | inr (inr (inr (inl (t, k)))) ↦
              let (same, bounded) = change_parameters_inv p _ i k in
              subst (Moves p i action) (sym same) (
                structure_up (==→eq action _ t)
                  (step_up-IsRaised p.controlnet_scale bounded.structure) refl refl)
          | inr (inr (inr (inr (t, k)))) ↦
              let (same, on) = retried_inv p i k in resampled (==→eq action _ t) same on
        ]
    where
      p : GenerationParameters
      p = request.execution_parameters

      i : ℕ
      i = request.variation_index
