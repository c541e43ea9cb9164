-- ===== src/Errors/Masking.antt =====
-- What `deconstructError` lets through.
use rivetkit.Base.{◌≡◌, ◌⊎◌, inl, inr, ◌↔◌, refl, ap, Bool, true, false, some, none, arith}
use rivetkit.Errors.Deconstruct.{
  Thrown, thrown_error, thrown_other, is_public_error, deconstruct_error, Caught, null_value,
  caught, deconstruct_caught, is_public_caught,
}

masks_alike :
    (a b : Thrown)
    → is_public_error a ≡ false
    → is_public_error b ≡ false
    → deconstruct_error false a ≡ deconstruct_error false b
unfolding deconstruct_error
masks_alike (thrown_error a) (thrown_error b) h k = ground arith
masks_alike (thrown_error a) (thrown_other m) h k = ground arith
masks_alike (thrown_other m) (thrown_error b) h k = ground arith
masks_alike (thrown_other m) (thrown_other n) h k = refl

-- Unless internal errors are exposed, everything that is thrown and is not public gets the same
-- answer, so that nothing of it leaves the server, but for `null`, which gets no answer as
-- `deconstructError` throws on it.
pub deconstruct_error_masks :
    (a b : Caught)
    → is_public_caught a ≡ false
    → is_public_caught b ≡ false
    → ((deconstruct_caught false a ≡ none) ↔ (a ≡ null_value))
      × ((a ≡ null_value)
          ⊎ (b ≡ null_value)
          ⊎ (deconstruct_caught false a ≡ deconstruct_caught false b))
unfolding deconstruct_caught
deconstruct_error_masks null_value b h k = ((λ e. refl, λ e. refl), inl refl)
deconstruct_error_masks (caught a) null_value h k = ((λ e. cc, λ e. cc), inr (inl refl))
deconstruct_error_masks (caught a) (caught b) h k =
    ((λ e. cc, λ e. cc), inr (inr (ap some (masks_alike a b h k))))

-- An error that was deconstructed, sent and deconstructed again with the same setting, as between
-- the router and the actor, stays as it is.
pub deconstruct_error-deconstruct_error :
    (expose : Bool) (e : Thrown)
    → deconstruct_error expose (thrown_error (deconstruct_error expose e))
      ≡ deconstruct_error expose e
unfolding deconstruct_error
deconstruct_error-deconstruct_error true (thrown_error e) = ground arith
deconstruct_error-deconstruct_error false (thrown_error e) = ground arith
deconstruct_error-deconstruct_error true (thrown_other m) = refl
deconstruct_error-deconstruct_error false (thrown_other m) = refl
