-- ===== src/Validator/Keeps.antt =====
-- Methods that keep the invariant of the validator store, whatever they return.
use lino.Sdk.{Sdk}
use lino.Validator.Store.{Method, ValidatorStore, Validator, read}
use lino.Prelude.{Bool, String, if◌then◌else◌, ◌≡◌, arith, inl, inr, eq_iff, true, false}
use lino.Validator.Invariant.{IsValid}
use lino.Prelude.Exec.{◌>>=◌, Result, Result-cases}
use lino.Types.Errors.{Error}
use lino.Prelude.Table.{erase, insert, get-insert, get-erase, string_key}

module _ ⦃sdk : Sdk⦄ where
  unfoldable pub Keeps : {A : Type 0} → Method A → Type 0
  Keeps m = (s : ValidatorStore) → IsValid s → IsValid (m s).1

  pub Keeps-bind :
      {A B : Type 0} (m : Method A) (f : A → Method B)
      → Keeps m
      → ((a : A) → Keeps (f a))
      → Keeps (m >>= f)
  unfolding Keeps
  Keeps-bind m f h k s v = elim (Result-cases (m s).0) [
    | inl (a, e) ↦ rw e (k a (m s).1 (h s v))
    | inr (x, e) ↦ rw e (h s v)
  ]

  pub Keeps-if :
      {A : Type 0} (b : Bool) (m n : Method A) → Keeps m → Keeps n → Keeps (if b then m else n)
  Keeps-if true m n h k = h
  Keeps-if false m n h k = k

  -- A method that leaves the store alone.
  pub Keeps-read : {A : Type 0} (f : ValidatorStore → Result Error A) → Keeps (read f)
  unfolding Keeps
  Keeps-read f s v = v

  -- Writing a record under its own name.
  pub insert-IsValid :
      (username : String) (v : Validator) (s : ValidatorStore)
      → v.username ≡ username
      → IsValid s
      → IsValid (record s { validators = insert username v s.validators })
  insert-IsValid username v s same h = record {
    names = λ j w e.
        ground (arith, get-insert username v s.validators j, h.names j w, eq_iff username j);
    lists = h.lists;
  }

  pub erase-IsValid :
      (username : String) (s : ValidatorStore)
      → IsValid s
      → IsValid (record s { validators = erase username s.validators })
  erase-IsValid username s h = record {
    names = λ j w e. ground (arith, get-erase username s.validators j, h.names j w);
    lists = h.lists;
  }
