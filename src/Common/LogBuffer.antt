-- ===== src/Common/LogBuffer.antt =====
-- common/log_buffer.py: the last messages of a log. The lock makes each method one step.
use Prim.Native.Nat.{ℕ, zero, suc, ◌-◌, ◌≤◌, ◌<◌}
use chainer_trader.Prelude.{
  ◌≡◌, refl, sym, ap, ◌∙◌, inl, inr, Bool-cases, Bool, List, [], ◌∷◌, ◌++◌, String, length,
  length-append, ltb, ◌==◌, if◌then◌else◌, arith,
}

-- `xs[n:]`
abbrev pub drop : {A : Type 0} → ℕ → List A → List A
drop zero xs = xs
drop (suc n) [] = []
drop (suc n) (x ∷ xs) = drop n xs

pub record LogBuffer : Type 0 where
  pub max_size : ℕ
  pub buffer : List String

-- `LogBuffer(max_size)`
abbrev pub log_buffer : ℕ → LogBuffer
log_buffer n = record { max_size = n; buffer = [] }

-- `deque.append` of a deque with `maxlen`: one entry more, and the oldest goes when it is too long
unfoldable pub append_within : ℕ → List String → String → List String
append_within n xs msg =
    let grown = xs ++ (msg ∷ []) in if ltb n (length grown) then drop 1 grown else grown

unfoldable pub add : String → LogBuffer → LogBuffer
add msg b = record b { buffer = append_within b.max_size b.buffer msg }

abbrev pub get_logs : LogBuffer → List String
get_logs b = b.buffer

unfoldable pub clear : LogBuffer → LogBuffer
clear b = record b { buffer = [] }

abbrev pub size : LogBuffer → ℕ
size b = length b.buffer

abbrev pub buffer_is_empty : LogBuffer → Bool
buffer_is_empty b = size b == 0

-- The calls that change a buffer.
pub data Call : Type 0 where
  call_add : String → Call
  call_clear : Call

abbrev pub step : Call → LogBuffer → LogBuffer
step (call_add msg) = add msg
step call_clear = clear

abbrev pub run : List Call → LogBuffer → LogBuffer
run [] b = b
run (c ∷ cs) b = run cs (step c b)

-- The messages that were added since the last `clear`, after those of a list.
abbrev pub since_clear : List Call → List String → List String
since_clear [] seen = seen
since_clear (call_add msg ∷ cs) seen = since_clear cs (seen ++ (msg ∷ []))
since_clear (call_clear ∷ cs) seen = since_clear cs []

-- the last `n` of a list
abbrev pub last_of : {A : Type 0} → ℕ → List A → List A
last_of n xs = drop (length xs - n) xs

drop-append :
    {A : Type 0} (n : ℕ) (xs : List A) (y : A)
    → n ≤ length xs
    → drop n xs ++ (y ∷ []) ≡ drop n (xs ++ (y ∷ []))
drop-append zero xs y h = refl
drop-append (suc n) [] y h = ground arith
drop-append (suc n) (x ∷ xs) y h = drop-append n xs y (omega arith)

drop_one-drop : {A : Type 0} (n : ℕ) (xs : List A) → drop 1 (drop n xs) ≡ drop (suc n) xs
drop_one-drop zero xs = refl
drop_one-drop (suc n) [] = refl
drop_one-drop (suc n) (x ∷ xs) = drop_one-drop n xs

length-drop : {A : Type 0} (n : ℕ) (xs : List A) → length (drop n xs) ≡ length xs - n
length-drop zero xs = omega arith
length-drop (suc n) [] = omega arith
length-drop (suc n) (x ∷ xs) = omega (arith, length-drop n xs)

append_within_short :
    (n : ℕ) (xs : List String) (msg : String)
    → length xs < n
    → append_within n xs msg ≡ xs ++ (msg ∷ [])
unfolding append_within
append_within_short n xs msg h = ground (arith, length-append xs (msg ∷ []))

append_within_full :
    (n : ℕ) (xs : List String) (msg : String)
    → length xs ≡ n
    → append_within n xs msg ≡ drop 1 (xs ++ (msg ∷ []))
unfolding append_within
append_within_full n xs msg h = ground (arith, length-append xs (msg ∷ []))

drop_by : {A : Type 0} (m n : ℕ) (xs : List A) → m ≡ n → drop m xs ≡ drop n xs
drop_by m n xs e = ap (λ k. drop k xs) e

-- Appending to the last `n` of a list gives the last `n` of the list with the message.
append_within-last_of :
    (n : ℕ) (xs : List String) (msg : String)
    → append_within n (last_of n xs) msg ≡ last_of n (xs ++ (msg ∷ []))
append_within-last_of n xs msg =
    let grown = xs ++ (msg ∷ []) in
    let k = length xs - n in
    let longer = length-append xs (msg ∷ []) in
    elim (Bool-cases (ltb (length xs) n)) [
      | inl e ↦
          ap (λ ys. append_within n ys msg) (drop_by k 0 xs (ground arith))
          ∙ append_within_short n xs msg (ground arith)
          ∙ sym (drop_by (length grown - n) 0 grown (ground (arith, longer)))
      | inr e ↦
          append_within_full n (last_of n xs) msg (ground (arith, length-drop k xs))
          ∙ ap (drop 1) (drop-append k xs msg (omega arith))
          ∙ drop_one-drop k grown
          ∙ drop_by (suc k) (length grown - n) grown (ground (arith, longer))
    ]

drop-nil : (k : ℕ) → [] ≡ drop {A = String} k []
drop-nil zero = refl
drop-nil (suc k) = refl

last_of-nil : (n : ℕ) → [] ≡ last_of {A = String} n []
last_of-nil n = drop-nil (0 - n)

run-last_of :
    (cs : List Call) (seen : List String) (b : LogBuffer)
    → get_logs b ≡ last_of b.max_size seen
    → get_logs (run cs b) ≡ last_of b.max_size (since_clear cs seen)
unfolding add clear
run-last_of [] seen b h = h
run-last_of (call_add msg ∷ cs) seen b h =
    run-last_of cs (seen ++ (msg ∷ [])) (add msg b)
      (ap (λ ys. append_within b.max_size ys msg) h ∙ append_within-last_of b.max_size seen msg)
run-last_of (call_clear ∷ cs) seen b h = run-last_of cs [] (clear b) (last_of-nil b.max_size)

-- After any calls on a new buffer, the logs are the last `max_size` of the messages that were added
-- since the last `clear`, oldest first.
pub run_refines :
    (n : ℕ) (cs : List Call) → get_logs (run cs (log_buffer n)) ≡ last_of n (since_clear cs [])
run_refines n cs = run-last_of cs [] (log_buffer n) (last_of-nil n)
