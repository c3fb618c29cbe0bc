-- ===== src/Examples/Line.antt =====
-- A transport to try the models on.
use seabolt.Prelude.{ℕ, zero, suc, ◌≡◌, ◌≤◌, refl, List, [], ◌∷◌, ◌++◌, length, take, arith}
use seabolt.Error
use seabolt.Communication.{Transport}
use seabolt.Communication.Transfer.{Transmits}
use seabolt.Communication.Delivery.{Delivers}

-- A line that takes and gives one byte at a time.
pub record Line : Type 0 where
  pub taken : List ℕ
  pub to_come : List ℕ

abbrev pub send_byte : Line → List ℕ → ℕ × (ℕ × Line)
send_byte l [] = (Error.status_set, (0, l))
send_byte l (x ∷ xs) = (Error.success, (1, record l { taken = l.taken ++ (x ∷ []) }))

abbrev pub give_byte : List ℕ → Line → ℕ → ℕ × (List ℕ × Line)
give_byte [] l max = (Error.end_of_transmission, ([], l))
give_byte (x ∷ xs) l zero = (Error.end_of_transmission, ([], l))
give_byte (x ∷ xs) l (suc max) = (Error.success, (x ∷ [], record l { to_come = xs }))

abbrev pub line : Transport Line
line = record {
  ignore_sigpipe = λ l. (Error.success, l);
  restore_sigpipe = λ l. (Error.success, l);
  send = send_byte;
  recv = λ l max. give_byte l.to_come l max;
}

pub line-Transmits : Transmits line (λ l. l.taken) (λ l. l.to_come)
line-Transmits = record {
  sends = sends;
  receives = λ l max. gives l.to_come l max refl;
  ignores = λ l. (refl, refl);
  restores = λ l. (refl, refl);
}
  where
    sends :
        (l : Line) (xs : List ℕ)
        → let (code, (n, next)) = send_byte l xs in
          code ≡ Error.success → (1 ≤ n) × (n ≤ length xs) × (next.taken ≡ l.taken ++ take n xs)
    sends l [] = λ e. ground (arith, e)
    sends l (x ∷ xs) = λ e. (omega arith, omega arith, refl)

    gives :
        (ys : List ℕ) (l : Line) (max : ℕ)
        → l.to_come ≡ ys
        → let (code, (xs, next)) = give_byte ys l max in
          code ≡ Error.success
          → (1 ≤ length xs) × (length xs ≤ max) × (l.to_come ≡ xs ++ next.to_come)
    gives [] l max h = λ e. ground (arith, e)
    gives (y ∷ ys) l zero h = λ e. ground (arith, e)
    gives (y ∷ ys) l (suc max) h = λ e. (omega arith, omega arith, h)

-- Such a line delivers.
pub line-Delivers : Delivers line (λ l. l.to_come)
line-Delivers = record {
  ready = λ l. refl;
  restored = λ l. refl;
  gives = λ l max h k. given l.to_come l max h k;
}
  where
    given :
        (ys : List ℕ) (l : Line) (max : ℕ)
        → 1 ≤ max
        → 1 ≤ length ys
        → (give_byte ys l max).0 ≡ Error.success
    given [] l max h k = absurd (omega arith)
    given (y ∷ ys) l zero h k = absurd (omega arith)
    given (y ∷ ys) l (suc max) h k = refl
