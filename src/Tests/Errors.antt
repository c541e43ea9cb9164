-- ===== src/Tests/Errors.antt =====
-- Errors: packages/rivetkit/src/actor/errors.ts and `deconstructError`.
use rivetkit.Base.{◌↔◌, ◌⊎◌, ◌≡◌, refl, false, codes}
use rivetkit.Errors.{
  state_not_enabled, construct, Thrown, thrown_error, thrown_other, caught, null_value,
  deconstruct_caught,
}
use rivetkit.Base.{none}
use rivetkit.Errors.Masking.{deconstruct_error_masks}

abbrev private_error : Thrown
private_error = thrown_error (construct state_not_enabled)

private_error_run : (construct state_not_enabled).is_public ≡ false
unfolding construct
private_error_run = refl

deconstruct_error_masks_example :
    ((deconstruct_caught false (caught private_error) ≡ none) ↔ (caught private_error ≡ null_value))
    × ((caught private_error ≡ null_value)
        ⊎ (caught (thrown_other (codes "password")) ≡ null_value)
        ⊎ (deconstruct_caught false (caught private_error)
            ≡ deconstruct_caught false (caught (thrown_other (codes "password")))))
deconstruct_error_masks_example =
    deconstruct_error_masks (caught private_error) (caught (thrown_other (codes "password")))
      private_error_run refl
