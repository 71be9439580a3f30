-- ===== src/Js/Effect.antt =====
-- Code that may throw and that awaits calls: a value or a thrown error, with the calls made so far.
pub mod Rules
pub mod Log
use relay_workflow_automatio.Prelude.{String, List, ◌∷◌, Option, none}
use relay_workflow_automatio.Js.{Num, Value}

-- A thrown `Error`: its message, and its `status` and `code` where it has one.
pub record Error : Type 0 where
  pub message : String
  pub status : Option Num
  pub code : Option String

-- `new Error(message)`, and the error of a call on a value that has no such method
abbrev pub error : String → Error
error m = record { message = m; status = none; code = none }

abbrev pub type_error : Error
type_error = error "TypeError"

pub data Result (A : Type 0) : Type 0 where
  ok : A → Result A
  throws : Error → Result A

-- `behind` stands for what the calls reach, `made` for the calls made, the last one first.
pub record World (Call S : Type 0) : Type 0 where
  pub behind : S
  pub made : List Call

abbrev pub Async : Type 0 → Type 0 → Type 0 → Type 0
Async Call S A = World Call S → Result A × World Call S

module _ {Call S A : Type 0} where
  unfoldable pub lift : Result A → Async Call S A
  lift r w = (r, w)

  unfoldable pub pure : A → Async Call S A
  pure a w = (ok a, w)

  unfoldable pub raise : Error → Async Call S A
  raise e w = (throws e, w)

  -- `try { return await m } catch (error) { … }` hands on how `m` ended
  settle : Result A × World Call S → Result (Result A) × World Call S
  settle (r, w) = (ok r, w)

  unfoldable pub attempt : Async Call S A → Async Call S (Result A)
  unfolding settle
  attempt m w = settle (m w)

module _ {Call S A B : Type 0} where
  unfoldable pub continue : Result A → (A → Async Call S B) → Async Call S B
  continue (ok a) f w = f a w
  continue (throws e) f w = (throws e, w)

  infixl 5 ◌>>=◌ ◌>>◌
  unfoldable pub ◌>>=◌ : Async Call S A → (A → Async Call S B) → Async Call S B
  unfolding continue
  ◌>>=◌ m f w = let (r, w') = m w in continue r f w'

  abbrev pub ◌>>◌ : Async Call S A → Async Call S B → Async Call S B
  m >> n = m >>= λ _. n

-- A call to what the program does not contain: `respond` answers it, and may change what stands
-- behind it in any way.
abbrev pub Respond : Type 0 → Type 0 → Type 0
Respond Call S = Call → S → Result Value × S

unfoldable pub call : {Call S : Type 0} → Respond Call S → Call → Async Call S Value
call respond c w = let (r, s) = respond c w.behind in (r, record { behind = s; made = c ∷ w.made })
