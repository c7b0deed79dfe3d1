-- ===== src/Server/Output/Sending.antt =====
-- src/http/HttpServer.cpp: a response goes out whole and in order, however the kernel cuts it.
use http_framework.Prelude.{
  ℕ, zero, suc, ◌+◌, ◌-◌, ◌≤◌, ◌≡◌, refl, ap, sym, ◌∙◌, true, List, [], ◌∷◌, ◌++◌, length, take,
  drop, arith, inl, inr, Bool-cases, drop-drop, append_assoc, leb, Bool,
}
use Prim.Native.Nat.{min}
use http_framework.Prelude.Bytes.{Bytes, substr}
use http_framework.Server.Output.{
  SendAnswer, took, send_interrupted, send_loop, write_all_data_from_offset,
}

send_loop_range :
    (bytes : Bytes) (total : ℕ) (answers : List SendAnswer)
    → total ≤ length bytes
    → (total ≤ (send_loop bytes total answers).0)
      × ((send_loop bytes total answers).0 ≤ length bytes)
unfolding send_loop
send_loop_range bytes total [] h = (omega arith, h)
send_loop_range bytes total (send_interrupted ∷ answers) h = send_loop_range bytes total answers h
send_loop_range bytes total (took n ∷ answers) h =
    let next = total + min (suc n) (length bytes - total) in
    omega (arith, send_loop_range bytes next answers (omega arith))

-- How many of the answers took bytes.
unfoldable pub took_count : List SendAnswer → ℕ
took_count [] = 0
took_count (send_interrupted ∷ answers) = took_count answers
took_count (took n ∷ answers) = took_count answers + 1

send_loop_all :
    (bytes : Bytes) (total : ℕ) (answers : List SendAnswer)
    → total ≤ length bytes
    → length bytes ≤ total + took_count answers
    → (send_loop bytes total answers).0 ≡ length bytes
unfolding send_loop took_count
send_loop_all bytes total [] h enough = omega arith
send_loop_all bytes total (send_interrupted ∷ answers) h enough =
    send_loop_all bytes total answers h enough
send_loop_all bytes total (took n ∷ answers) h enough =
    let next = total + min (suc n) (length bytes - total) in
    send_loop_all bytes next answers (omega arith) (omega arith)

-- Where every call of send that takes bytes takes at least one, as many of them as there are bytes left
-- send the response to its end, however many calls are interrupted between them.
pub write_all_data_from_offset-finishes :
    (bytes : Bytes) (offset : ℕ) (answers : List SendAnswer)
    → offset ≤ length bytes
    → length bytes ≤ offset + took_count answers
    → ((write_all_data_from_offset bytes offset answers).1 ≡ true)
      × (offset + (write_all_data_from_offset bytes offset answers).0 ≡ length bytes)
unfolding write_all_data_from_offset
write_all_data_from_offset-finishes bytes offset answers h enough =
    ground (arith, send_loop_all bytes offset answers h enough)

-- A prefix of a suffix, and what is behind it.
take-drop_join : (xs : Bytes) (n : ℕ) → take n xs ++ drop n xs ≡ xs
take-drop_join [] zero = refl
take-drop_join [] (suc n) = refl
take-drop_join (x ∷ xs) zero = refl
take-drop_join (x ∷ xs) (suc n) = ap (◌∷◌ x) (take-drop_join xs n)

join_rest :
    (bytes : Bytes) (offset n : ℕ)
    → substr bytes offset n ++ drop (offset + n) bytes ≡ drop offset bytes
join_rest bytes offset n =
    ap (λ xs. substr bytes offset n ++ xs) (sym (drop-drop offset n bytes))
    ∙ take-drop_join (drop offset bytes) n

-- What went out and what is behind it are the bytes from the first position on.
send_loop-joins :
    (bytes : Bytes) (total : ℕ) (answers : List SendAnswer)
    → (send_loop bytes total answers).1 ++ drop (send_loop bytes total answers).0 bytes
      ≡ drop total bytes
unfolding send_loop
send_loop-joins bytes total [] = refl
send_loop-joins bytes total (send_interrupted ∷ answers) = send_loop-joins bytes total answers
send_loop-joins bytes total (took n ∷ answers) =
    let count = min (suc n) (length bytes - total) in
    let (position, later) = send_loop bytes (total + count) answers in
    append_assoc (substr bytes total count) later (drop position bytes)
    ∙ ap (λ xs. substr bytes total count ++ xs) (send_loop-joins bytes (total + count) answers)
    ∙ join_rest bytes total count

-- One write of a response: the position stays within it and the bytes are those up to the new one.
pub record IsWrite (bytes : Bytes) (offset written : ℕ) (all_sent : Bool) (out : Bytes)
    : Type 0 where
  pub within : offset + written ≤ length bytes
  pub whole : all_sent ≡ true → offset + written ≡ length bytes
  pub joined : out ++ drop (offset + written) bytes ≡ drop offset bytes

pub write_all_data_from_offset-IsWrite :
    (bytes : Bytes) (offset : ℕ) (answers : List SendAnswer)
    → offset ≤ length bytes
    → IsWrite bytes offset
        (write_all_data_from_offset bytes offset answers).0
        (write_all_data_from_offset bytes offset answers).1
        (write_all_data_from_offset bytes offset answers).2
unfolding write_all_data_from_offset
write_all_data_from_offset-IsWrite bytes offset answers h =
    let (first, last) = send_loop_range bytes offset answers h in
    let position = (send_loop bytes offset answers).0 in
    let back : offset + (position - offset) ≡ position = omega arith in
    elim (Bool-cases (leb (length bytes) offset)) [
      | inl past ↦ rw past (record {
        within = omega arith;
        whole = λ _. ground arith;
        joined = ap (λ n. drop n bytes) (omega arith);
      })
      | inr more ↦ rw more (record {
        within = omega arith;
        whole = λ e. ground arith;
        joined =
            ap (λ n. (send_loop bytes offset answers).1 ++ drop n bytes) back
            ∙ send_loop-joins bytes offset answers;
      })
    ]
