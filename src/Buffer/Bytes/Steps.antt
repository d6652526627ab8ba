-- ===== src/Buffer/Bytes/Steps.antt =====
-- Every step of the threads of Buffer/Bytes is a step of Buffer/Threads, or a byte of a copy.
use foxdbg.Base.{
  ℕ, suc, ◌≡◌, ◌≢◌, ◌≤◌, ◌<◌, refl, ap, sym, ◌∙◌, Bool, true, false, List, [], ◌∷◌, ◌++◌, ◌⊎◌, inl,
  inr, some, length, take, drop, get_elem?, memcpy, memcpy-zero, ◌==◌, ==_iff, le→leb, Bool-cases,
  arith,
}
use foxdbg.Outcome.{ok}
use foxdbg.Buffer.{FoxdbgBuffer, half_bytes, set_half}
use foxdbg.Buffer.Calls.{Access, copy_in, copy_out, Local, exec}
use foxdbg.Buffer.Threads.{System, Step, pick, update}
use foxdbg.Buffer.Threads.Discipline.{Disciplined}
use foxdbg.Buffer.Bytes.{ByteSystem, copies, ByteStep, whole, put, put_end, get, get_end}
use foxdbg.Buffer.Bytes.Image.{
  overlay, take-all, take-suc, get_elem?-lt, memcpy-overlay, partly, half_bytes-set_half,
  set_half-set_half, image-holder,
}
use foxdbg.Buffer.Bytes.Relation.{
  InCopy, Simulates, at_rest, update-same, at_each, at_code, here, others_wait, copier, seen,
}

-- A step that is answered by a step, or by none.
abbrev pub Answered : System → ByteSystem → Type 0
Answered s f' = ((s' : System) × Step s s' × Simulates s' f') ⊎ Simulates s f'

update-ext {ℓ} :
    {A : Type ℓ} (f g : ℕ → A) (i : ℕ) (x : A)
    → ((j : ℕ) → f j ≡ g j)
    → (j : ℕ) → update f i x j ≡ update g i x j
update-ext f g i x h j = elim (Bool-cases (i == j)) [
  | inl same ↦ rw same refl
  | inr other ↦ rw other (h j)
]

update_self {ℓ} : {A : Type ℓ} (f : ℕ → A) (i j : ℕ) → update f i (f i) j ≡ f j
update_self f i j = elim (Bool-cases (i == j)) [
  | inl same ↦ rw same (ap f ((==_iff i j).0 same))
  | inr other ↦ rw other refl
]

exec-copy_in :
    (i : ℕ) (bytes : List ℕ) (b : FoxdbgBuffer) (l : Local) {out : List ℕ}
    → memcpy (half_bytes b l.ptr) 0 bytes ≡ some out
    → exec i (copy_in bytes) b l ≡ ok (set_half b l.ptr out, l)
unfolding exec
exec-copy_in i bytes b l e = ground arith

exec-copy_out :
    (i : ℕ) (accept : ℕ → Bool) (b : FoxdbgBuffer) (l : Local)
    → accept l.size ≡ true
    → l.size ≤ length (half_bytes b l.ptr)
    → exec i (copy_out accept) b l
      ≡ ok (b, record l { copied = some (take l.size (half_bytes b l.ptr)) })
unfolding exec
exec-copy_out i accept b l e h = rw (e, le→leb l.size (length (half_bytes b l.ptr)) h) refl

module _ (s : System) (f : ByteSystem) (d : Disciplined s) (v : Simulates s f) (i : ℕ) where
  whole-Answered :
      {a : Access} {rest : List Access} {b : FoxdbgBuffer} {l : Local}
      → f.code i ≡ a ∷ rest
      → copies (f.locals i) a ≡ false
      → exec i a f.buffer (f.locals i) ≡ ok (b, l)
      → Answered s
          (record f { buffer = b; code = update f.code i rest; locals = update f.locals i l })
  whole-Answered {a} {rest} {b} {l} e plain x =
      let n = seen s f d v i a rest e plain x in
      let x' : exec i a s.buffer (s.locals i) ≡ ok (b, l) =
        ap (λ l'. exec i a s.buffer l') (sym (v.same_locals i))
        ∙ ap (λ y. exec i a y (f.locals i)) (sym n.sees)
        ∙ x in
      let t : System = record {
        buffer = b;
        code = update s.code i rest;
        locals = update s.locals i l;
      } in
      inl (
        t,
        pick i (at_code s f d v i a rest e) x',
        at_rest t
            (record f { buffer = b; code = update f.code i rest; locals = update f.locals i l })
            (update-ext f.code s.code i rest v.same_code)
            (update-ext f.locals s.locals i l v.same_locals) refl n.all_rest,
      )

  put-Answered :
      {bytes out : List ℕ} {rest : List Access} {w : ℕ}
      → f.code i ≡ copy_in bytes ∷ rest
      → get_elem? bytes (f.progress i) ≡ some w
      → memcpy (half_bytes f.buffer (f.locals i).ptr) (f.progress i) (w ∷ []) ≡ some out
      → Answered s (record f {
        buffer = set_half f.buffer (f.locals i).ptr out;
        progress = update f.progress i (suc (f.progress i));
      })
  put-Answered {bytes} {out} {rest} {w} e g c =
      let k = f.progress i in
      let p = (s.locals i).ptr in
      let h = half_bytes s.buffer p in
      let own = copier s f d v i (copy_in bytes) rest e refl in
      let begun = here s f d v i (copy_in bytes) rest e in
      let c' : memcpy (overlay k bytes h) k (w ∷ []) ≡ some out =
        ap (λ x. memcpy x k (w ∷ [])) (sym (half_bytes-set_half s.buffer p (overlay k bytes h)))
        ∙ ap (λ y. memcpy (half_bytes y p) k (w ∷ [])) (sym own.1)
        ∙ ap (λ (l : Local). memcpy (half_bytes f.buffer l.ptr) k (w ∷ [])) (sym (v.same_locals i))
        ∙ c in
      let m = memcpy-overlay k bytes h g begun.1 c' in
      let progress' = update f.progress i (suc k) in
      inr (record {
        same_code = v.same_code;
        same_locals = v.same_locals;
        same_buffer =
            ap (λ (l : Local). set_half f.buffer l.ptr out) (v.same_locals i)
            ∙ ap (λ y. set_half y p out) own.1
            ∙ set_half-set_half s.buffer p (overlay k bytes h) out
            ∙ ap (set_half s.buffer p) m.0
            ∙ ap (λ n. partly (copy_in bytes ∷ rest) n (s.locals i) s.buffer)
                (sym (update-same f.progress i (suc k)))
            ∙ sym (
                image-holder s progress' i (copy_in bytes ∷ rest) own.0
                  (at_code s f d v i (copy_in bytes) rest e));
        in_copy =
            at_each (λ j n. InCopy (s.code j) n (f.taken j) (s.locals j) s.buffer) f.progress i
              (suc k)
              (rw (at_code s f d v i (copy_in bytes) rest e) (get_elem?-lt k bytes g, m.1, begun.2))
              (λ j ne. v.in_copy j);
      })

  -- With the copy at its end, nobody is in one.
  ended :
      (a : Access) (rest : List Access)
      → f.code i ≡ a ∷ rest
      → s.buffer.swap_mutex ≡ some i
      → (j : ℕ) → i ≢ j
      → (f.progress j ≡ 0) × (f.taken j ≡ [])
  ended a rest e own j ne = others_wait s f d v i a rest e own j ne

  put_end-Answered :
      {bytes : List ℕ} {rest : List Access}
      → f.code i ≡ copy_in bytes ∷ rest
      → f.progress i ≡ length bytes
      → Answered s (record f { code = update f.code i rest; progress = update f.progress i 0 })
  put_end-Answered {bytes} {rest} e full =
      let p = (s.locals i).ptr in
      let h = half_bytes s.buffer p in
      let own = copier s f d v i (copy_in bytes) rest e refl in
      let begun = here s f d v i (copy_in bytes) rest e in
      let b = set_half s.buffer p (bytes ++ drop (length bytes) h) in
      let x : exec i (copy_in bytes) s.buffer (s.locals i) ≡ ok (b, s.locals i) =
        exec-copy_in i bytes s.buffer (s.locals i) (memcpy-zero h bytes (omega (arith, begun.1))) in
      let t : System = record {
        buffer = b;
        code = update s.code i rest;
        locals = update s.locals i (s.locals i);
      } in
      inl (
        t,
        pick i (at_code s f d v i (copy_in bytes) rest e) x,
        at_rest t (record f { code = update f.code i rest; progress = update f.progress i 0 })
            (update-ext f.code s.code i rest v.same_code)
            (λ j. v.same_locals j ∙ sym (update_self s.locals i j))
            (own.1
              ∙ ap (λ n. set_half s.buffer p (take n bytes ++ drop n h)) full
              ∙ ap (λ y. set_half s.buffer p (y ++ drop (length bytes) h)) (take-all bytes))
            (at_each (λ j n. (n ≡ 0) × (f.taken j ≡ [])) f.progress i 0 (refl, begun.2)
              (ended (copy_in bytes) rest e own.0)),
      )

  get-Answered :
      {accept : ℕ → Bool} {rest : List Access} {w : ℕ}
      → f.code i ≡ copy_out accept ∷ rest
      → accept (f.locals i).size ≡ true
      → f.progress i < (f.locals i).size
      → get_elem? (half_bytes f.buffer (f.locals i).ptr) (f.progress i) ≡ some w
      → Answered s (record f {
        progress = update f.progress i (suc (f.progress i));
        taken = update f.taken i (f.taken i ++ (w ∷ []));
      })
  get-Answered {accept} {rest} {w} e yes_it lt g =
      let k = f.progress i in
      let p = (s.locals i).ptr in
      let h = half_bytes s.buffer p in
      let own = copier s f d v i (copy_out accept) rest e refl in
      let begun = here s f d v i (copy_out accept) rest e in
      let g' : get_elem? h k ≡ some w =
        ap (λ y. get_elem? (half_bytes y p) k) (sym own.1)
        ∙ ap (λ (l : Local). get_elem? (half_bytes f.buffer l.ptr) k) (sym (v.same_locals i))
        ∙ g in
      let lt' : suc k ≤ (s.locals i).size = rw (← v.same_locals i) lt in
      let progress' = update f.progress i (suc k) in
      let taken' = update f.taken i (f.taken i ++ (w ∷ [])) in
      inr (record {
        same_code = v.same_code;
        same_locals = v.same_locals;
        same_buffer =
            own.1
            ∙ sym (
                image-holder s progress' i (copy_out accept ∷ rest) own.0
                  (at_code s f d v i (copy_out accept) rest e));
        in_copy = λ j. elim (Bool-cases (i == j)) [
          | inl same ↦
              rw (same, ← (==_iff i j).0 same, at_code s f d v i (copy_out accept) rest e)
                (
                  ap (λ y. y ++ (w ∷ [])) begun.0 ∙ sym (take-suc k h g'),
                  get_elem?-lt k h g',
                  lt',
                  inr (rw (← v.same_locals i) yes_it),
                )
          | inr other ↦ rw other (v.in_copy j)
        ];
      })

  get_end-Answered :
      {accept : ℕ → Bool} {rest : List Access}
      → f.code i ≡ copy_out accept ∷ rest
      → accept (f.locals i).size ≡ true
      → f.progress i ≡ (f.locals i).size
      → Answered s (record f {
        code = update f.code i rest;
        locals = update f.locals i (record (f.locals i) { copied = some (f.taken i) });
        progress = update f.progress i 0;
        taken = update f.taken i [];
      })
  get_end-Answered {accept} {rest} e yes_it full =
      let l = s.locals i in
      let h = half_bytes s.buffer l.ptr in
      let own = copier s f d v i (copy_out accept) rest e refl in
      let begun = here s f d v i (copy_out accept) rest e in
      let full' : f.progress i ≡ l.size = full ∙ ap (λ (k : Local). k.size) (v.same_locals i) in
      let l' : Local = record l { copied = some (take l.size h) } in
      let x : exec i (copy_out accept) s.buffer l ≡ ok (s.buffer, l') =
        exec-copy_out i accept s.buffer l
          (ap (λ (k : Local). accept k.size) (sym (v.same_locals i)) ∙ yes_it)
          (omega (arith, begun.1)) in
      let got : record (f.locals i) { copied = some (f.taken i) } ≡ l' =
        ap (λ (k : Local). record k { copied = some (f.taken i) }) (v.same_locals i)
        ∙ ap (λ y. record l { copied = some y }) (begun.0 ∙ ap (λ n. take n h) full') in
      let t : System = record {
        buffer = s.buffer;
        code = update s.code i rest;
        locals = update s.locals i l';
      } in
      inl (
        t,
        pick i (at_code s f d v i (copy_out accept) rest e) x,
        at_rest t
            (record f {
              code = update f.code i rest;
              locals = update f.locals i (record (f.locals i) { copied = some (f.taken i) });
              progress = update f.progress i 0;
              taken = update f.taken i [];
            })
            (update-ext f.code s.code i rest v.same_code)
            (λ j.
              ap (λ y. update f.locals i y j) got
              ∙ update-ext f.locals s.locals i l' v.same_locals j)
            own.1
            (λ j. elim (Bool-cases (i == j)) [
              | inl same ↦ rw same (refl, refl)
              | inr other ↦ rw other (ended (copy_out accept) rest e own.0 j (ground arith))
            ]),
      )

pub step-Answered :
    (s : System) (f : ByteSystem)
    → Disciplined s
    → Simulates s f
    → {f' : ByteSystem} → ByteStep f f'
    → Answered s f'
step-Answered s f d v (whole i e plain x) = whole-Answered s f d v i e plain x
step-Answered s f d v (put i e g c) = put-Answered s f d v i e g c
step-Answered s f d v (put_end i e full) = put_end-Answered s f d v i e full
step-Answered s f d v (get i e yes_it lt g) = get-Answered s f d v i e yes_it lt g
step-Answered s f d v (get_end i e yes_it full) = get_end-Answered s f d v i e yes_it full
