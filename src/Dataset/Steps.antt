-- ===== src/Dataset/Steps.antt =====
-- What the early returns of ValidateDataset let through.
use capagent.Model.Errors.{Error}
use capagent.Dataset.Check.{first_error}
use capagent.Dataset.Index.{
  accepted, continue, refuse_error, refuse_if, refused, Indexed, DatasetError,
}
use capagent.Base.{inr, true, refl, inl, arith, ◌⊎◌, false, some, none, ◌≡◌, Bool, Option}

pub refuse_if-none :
    (bad : Bool) (e : DatasetError) (rest : Option DatasetError)
    → refuse_if bad e rest ≡ none
    → (bad ≡ false) × (rest ≡ none)
refuse_if-none true e rest h = absurd (ground arith)
refuse_if-none false e rest h = (refl, h)

pub refuse_error-none :
    (o : Option Error) (rest : Option DatasetError)
    → refuse_error o rest ≡ none
    → (o ≡ none) × (rest ≡ none)
refuse_error-none none rest h = (refl, h)
refuse_error-none (some e) rest h = absurd (ground arith)

pub first_error-none :
    (o rest : Option DatasetError) → first_error o rest ≡ none → (o ≡ none) × (rest ≡ none)
first_error-none none rest h = (refl, h)
first_error-none (some e) rest h = absurd (ground arith)

module _ {A : Type 0} where
  pub continue-accepted :
      (o : Option DatasetError) (rest : Indexed A) (a : A)
      → continue o rest ≡ accepted a
      → (o ≡ none) × (rest ≡ accepted a)
  continue-accepted none rest a h = (refl, h)
  continue-accepted (some e) rest a h = absurd (ground arith)

  pub Indexed-cases :
      (r : Indexed A) → ((a : A) × (r ≡ accepted a)) ⊎ ((e : DatasetError) × (r ≡ refused e))
  Indexed-cases (accepted a) = inl (a, refl)
  Indexed-cases (refused e) = inr (e, refl)

  pub not_refused : (e : DatasetError) (a : A) → ¬ (refused e ≡ accepted a)
  not_refused e a h = ground arith
