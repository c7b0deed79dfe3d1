-- ===== src/Context/Queue.antt =====
-- src/http/HttpContext.cpp: the received bytes as a queue, in both modes: appendData adds at its end,
-- consumeData takes from its front.
use http_framework.Prelude.{
  ℕ, zero, suc, ◌+◌, ◌-◌, ◌≡◌, refl, ap, sym, ◌∙◌, Bool, true, false, ◌&&◌, Option, none, some, [],
  ◌∷◌, ◌++◌, ◌==◌, leb, if◌then◌else◌, length, is_empty, take, drop, arith, inl, inr, Bool-cases,
  drop-drop, drop_all, take_all, append-nil,
}
use http_framework.Prelude.Bytes.{Bytes}
use http_framework.Pool.{HttpMemoryPool}
use http_framework.Pool.Buffer.{
  PooledBuffer, new_buffer, is_valid, write, clear as clear_buffer, consume,
}
use http_framework.Context.{
  HttpContext, on_buffer, peek_buffer, peek_data, consume_data, ensure_buffer, append_to_buffer,
  append_to_string, mark_start, append_data,
}

if_true {ℓ} : {A : Type ℓ} (test : Bool) (x y : A) → test ≡ true → (if test then x else y) ≡ x
if_true test x y h = rw h refl

if_false {ℓ} : {A : Type ℓ} (test : Bool) (x y : A) → test ≡ false → (if test then x else y) ≡ y
if_false test x y h = rw h refl

-- How many of `src` bytes can be taken behind those that are held.
unfoldable pub room : HttpMemoryPool → HttpContext → Bytes → ℕ
unfolding ensure_buffer
room pool c src =
    if c.use_memory_pool
    then (let b = (ensure_buffer pool c.request_buffer).1 in
        if is_valid b then b.capacity - length (peek_data c) else 0)
    else length src

peek_clear : (b : Option PooledBuffer) → peek_buffer 0 (on_buffer clear_buffer b) ≡ []
unfolding peek_buffer clear_buffer
peek_clear none = refl
peek_clear (some b) = ground arith

drop_past : (n k : ℕ) (b : Option PooledBuffer) → drop n (peek_buffer k b) ≡ peek_buffer (k + n) b
unfolding peek_buffer
drop_past n k none = drop_all n [] (omega arith)
drop_past n k (some b) = elim (Bool-cases (is_valid b)) [
  | inl ok ↦ rw (peek_buffer, ok) (drop-drop k n b.contents)
  | inr null ↦ rw (peek_buffer, null) (drop_all n [] (omega arith))
]

-- Consuming n bytes drops the first n of what is held, in both modes, and all where there are fewer.
pub peek_data-consume_data :
    (n : ℕ) (c : HttpContext) → peek_data (consume_data n c) ≡ drop n (peek_data c)
unfolding peek_data consume_data
peek_data-consume_data n c = elim (Bool-cases c.use_memory_pool) [
  | inl pooled ↦ elim (Bool-cases (leb (length (peek_buffer c.read_pos c.request_buffer)) n)) [
    | inl whole ↦
        rw (pooled, whole)
          (peek_clear c.request_buffer
            ∙ sym (drop_all n (peek_buffer c.read_pos c.request_buffer) (ground arith)))
    | inr part ↦ rw (pooled, part) (sym (drop_past n c.read_pos c.request_buffer))
  ]
  | inr plain ↦ elim (Bool-cases (leb (length (drop c.read_pos c.buffer)) n)) [
    | inl whole ↦ rw (plain, whole) (sym (drop_all n (drop c.read_pos c.buffer) (ground arith)))
    | inr part ↦ rw (plain, part) (sym (drop-drop c.read_pos n c.buffer))
  ]
]

peek_data-mark_start :
    (now : ℕ) (test : Bool) (c : HttpContext) → peek_data (mark_start now test c) ≡ peek_data c
unfolding peek_data
peek_data-mark_start now true c = refl
peek_data-mark_start now false c = refl

consume-contents :
    (n : ℕ) (b : PooledBuffer) → is_valid b ≡ true → (consume n b).contents ≡ drop n b.contents
unfolding consume clear_buffer
consume-contents zero b ok = rw ok refl
consume-contents (suc n) b ok =
    let more : (suc n == 0) ≡ false = ground arith in
    elim (Bool-cases (leb (length b.contents) (suc n))) [
      | inl whole ↦ rw (ok, more, whole) (sym (drop_all (suc n) b.contents (ground arith)))
      | inr part ↦ rw (ok, more, part) refl
    ]

consume-capacity : (n : ℕ) (b : PooledBuffer) → (consume n b).capacity ≡ b.capacity
unfolding consume clear_buffer
consume-capacity n b = ground arith

consume-valid : (n : ℕ) (b : PooledBuffer) → is_valid (consume n b) ≡ is_valid b
unfolding consume clear_buffer
consume-valid n b = ground arith

-- A write behind the bytes that are left.
write-peek :
    (src : Bytes) (b : PooledBuffer)
    → is_valid b ≡ true
    → peek_buffer 0 (some (write src b).0) ≡ b.contents ++ take (b.capacity - length b.contents) src
unfolding write peek_buffer
write-peek src b ok = rw (write, ok) (rw (peek_buffer, ok) refl)

peek-valid :
    (k : ℕ) (b : PooledBuffer) → is_valid b ≡ true → peek_buffer k (some b) ≡ drop k b.contents
unfolding peek_buffer
peek-valid k b ok = rw ok refl

peek-null : (k : ℕ) (b : PooledBuffer) → is_valid b ≡ false → peek_buffer k (some b) ≡ []
unfolding peek_buffer
peek-null k b null = rw null refl

peek-pooled :
    (c : HttpContext)
    → c.use_memory_pool ≡ true
    → peek_data c ≡ peek_buffer c.read_pos c.request_buffer
unfolding peek_data
peek-pooled c pooled =
    if_true c.use_memory_pool (peek_buffer c.read_pos c.request_buffer) (drop c.read_pos c.buffer)
      pooled

peek-plain : (c : HttpContext) → c.use_memory_pool ≡ false → peek_data c ≡ drop c.read_pos c.buffer
unfolding peek_data
peek-plain c plain =
    if_false c.use_memory_pool (peek_buffer c.read_pos c.request_buffer) (drop c.read_pos c.buffer)
      plain

-- What the block holds after the append, for the buffer that is there or was made.
append_to_buffer-peek :
    (src : Bytes) (b : PooledBuffer) (c : HttpContext)
    → c.use_memory_pool ≡ true
    → peek_data (append_to_buffer src b c)
      ≡ peek_buffer c.read_pos (some b)
        ++ take
            (if is_valid b then b.capacity - length (peek_buffer c.read_pos (some b)) else 0)
            src
unfolding append_to_buffer peek_data
append_to_buffer-peek src b c pooled = elim (Bool-cases (is_valid b)) [
  | inl ok ↦
      let left = consume-contents c.read_pos b ok in
      let size = consume-capacity c.read_pos b in
      let same_ok = consume-valid c.read_pos b ∙ ok in
      rw (pooled, ok, peek-valid c.read_pos b ok)
        (write-peek src (consume c.read_pos b) same_ok ∙ rw (left, size) refl)
  | inr null ↦ rw (pooled, null, peek-null c.read_pos b null) refl
]

append_to_string-peek :
    (src : Bytes) (c : HttpContext)
    → c.use_memory_pool ≡ false
    → peek_data (append_to_string src c) ≡ drop c.read_pos c.buffer ++ src
unfolding append_to_string peek_data
append_to_string-peek src c plain = rw plain refl

-- A new buffer holds nothing, as no buffer does.
ensure_buffer-peek :
    (pool : HttpMemoryPool) (k : ℕ) (b : Option PooledBuffer)
    → peek_buffer k (some (ensure_buffer pool b).1) ≡ peek_buffer k b
unfolding ensure_buffer peek_buffer new_buffer
ensure_buffer-peek pool k none = elim (Bool-cases (is_valid (new_buffer pool).1)) [
  | inl ok ↦ rw ok (drop_all k [] (omega arith))
  | inr null ↦ rw null refl
]
ensure_buffer-peek pool k (some b) = refl

-- After appendData what is held is what was held and as many of the new bytes as there is room for:
-- all of them outside pool mode, and in pool mode what the rest of the block takes, which is nothing
-- where no block could be had.
pub peek_data-append_data :
    (now : ℕ) (src : Bytes) (pool : HttpMemoryPool) (c : HttpContext)
    → peek_data (append_data now src (pool, c)).1 ≡ peek_data c ++ take (room pool c src) src
unfolding append_data room
peek_data-append_data now [] pool c =
    sym (append-nil (peek_data c))
    ∙ ap (λ xs. peek_data c ++ xs) (sym (take_all (room pool c []) [] (omega arith)))
peek_data-append_data now (s ∷ src) pool c = elim (Bool-cases c.use_memory_pool) [
  | inl pooled ↦
      let b = (ensure_buffer pool c.request_buffer).1 in
      let held : peek_buffer c.read_pos (some b) ≡ peek_data c =
        ensure_buffer-peek pool c.read_pos c.request_buffer ∙ sym (peek-pooled c pooled) in
      let space : room pool c (s ∷ src)
          ≡ (if is_valid b then b.capacity - length (peek_data c) else 0) =
        if_true c.use_memory_pool (if is_valid b then b.capacity - length (peek_data c) else 0)
          (length (s ∷ src)) pooled in
      ap (λ (r : HttpMemoryPool × HttpContext). peek_data r.1)
        (if_true c.use_memory_pool
          (
            (ensure_buffer pool c.request_buffer).0,
            mark_start now (is_empty (peek_data c) && is_valid b) (append_to_buffer (s ∷ src) b c),
          )
          (pool, mark_start now (is_empty (peek_data c)) (append_to_string (s ∷ src) c)) pooled)
      ∙ peek_data-mark_start now (is_empty (peek_data c) && is_valid b)
          (append_to_buffer (s ∷ src) b c)
      ∙ append_to_buffer-peek (s ∷ src) b c pooled
      ∙ rw (held, space) refl
  | inr plain ↦
      let b = (ensure_buffer pool c.request_buffer).1 in
      let space : room pool c (s ∷ src) ≡ length (s ∷ src) =
        if_false c.use_memory_pool (if is_valid b then b.capacity - length (peek_data c) else 0)
          (length (s ∷ src)) plain in
      ap (λ (r : HttpMemoryPool × HttpContext). peek_data r.1)
        (if_false c.use_memory_pool
          (
            (ensure_buffer pool c.request_buffer).0,
            mark_start now (is_empty (peek_data c) && is_valid b) (append_to_buffer (s ∷ src) b c),
          )
          (pool, mark_start now (is_empty (peek_data c)) (append_to_string (s ∷ src) c)) plain)
      ∙ peek_data-mark_start now (is_empty (peek_data c)) (append_to_string (s ∷ src) c)
      ∙ append_to_string-peek (s ∷ src) c plain
      ∙ rw (space, peek-plain c plain, take_all (length (s ∷ src)) (s ∷ src) (omega arith)) refl
]
