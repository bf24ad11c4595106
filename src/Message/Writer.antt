-- ===== src/Message/Writer.antt =====
-- io.Writer, which the standard library and its callers implement: a parameter, with the contract
-- that its documentation states. A chain of writes stops at the first one that fails.
use nsq.Base.{
  ℕ, ◌+◌, ◌≡◌, refl, sym, ap, ◌∙◌, Bool, true, false, Option, none, some, List, [], ◌++◌,
  append_assoc, append-nil, arith, length, length-append, if◌then◌else◌,
}

pub data WriteError : Type 0 where
  write_failed : WriteError
  ext_too_long : WriteError

-- `write out p` gives the new state, the count and whether an error was returned. The count is at
-- most the length of `p`, that many bytes were written, and it is less only with an error.
pub record Writer : Type 1 where
  pub Out : Type 0
  pub contents : Out → List ℕ
  pub write : Out → List ℕ → Out × ℕ × Bool
  pub written :
      (out : Out) (p : List ℕ)
      → (done rest : List ℕ) × (p ≡ done ++ rest)
        × (contents (write out p).0 ≡ contents out ++ done)
        × ((write out p).1 ≡ length done)
        × ((write out p).2 ≡ false → rest ≡ [])

module _ (w : Writer) where
  open w use {Out, contents, write, written}

  -- The local variables `total` and `err` of the writing functions, with the writer's state.
  pub record Progress : Type 0 where
    pub out : Out
    pub total : ℕ
    pub error : Option WriteError

  abbrev pub start : Out → Progress
  start out = record { out = out; total = 0; error = none }

  abbrev put_chunk : List ℕ → Progress → Option WriteError → Progress
  put_chunk p s (some e) = s
  put_chunk p s none = record {
    out = (write s.out p).0;
    total = s.total + (write s.out p).1;
    error = if (write s.out p).2 then some write_failed else none;
  }

  -- `n, err = w.Write(p); total += int64(n); if err != nil { return total, err }`
  unfoldable pub emit : List ℕ → Progress → Progress
  emit p s = put_chunk p s s.error

  abbrev fail_with : WriteError → Progress → Option WriteError → Progress
  fail_with e s (some old) = s
  fail_with e s none = record s { error = some e }

  -- `return total, e`
  unfoldable pub fail : WriteError → Progress → Progress
  fail e s = fail_with e s s.error

  -- From `out`, the bytes were written in order up to some point, which is the end if no error
  -- was returned, and `total` counts them.
  pub record Wrote (out : Out) (bytes : List ℕ) (s : Progress) : Type 0 where
    pub done : List ℕ
    pub rest : List ℕ
    pub split : bytes ≡ done ++ rest
    pub appended : contents s.out ≡ contents out ++ done
    pub counted : s.total ≡ length done
    pub complete : s.error ≡ none → rest ≡ []

  pub start-Wrote : (out : Out) → Wrote out [] (start out)
  start-Wrote out = record {
    done = [];
    rest = [];
    split = refl;
    appended = sym (append-nil (contents out));
    counted = refl;
    complete = λ _. refl;
  }

  complete_flag : (b : Bool) → (if b then some write_failed else none) ≡ none → b ≡ false
  complete_flag true e = cc
  complete_flag false e = refl

  put_chunk-Wrote :
      {out : Out} {bytes : List ℕ} (p : List ℕ) (s : Progress) (e : Option WriteError)
      → s.error ≡ e
      → Wrote out bytes s
      → Wrote out (bytes ++ p) (put_chunk p s e)
  put_chunk-Wrote p s (some x) q v = record {
    done = v.done;
    rest = v.rest ++ p;
    split = rw v.split (append_assoc v.done v.rest p);
    appended = v.appended;
    counted = v.counted;
    complete = λ h. cc;
  }
  put_chunk-Wrote {out} {bytes} p s none q v =
      let (done, rest, split, appended, counted, complete) = written s.out p in
      let all : bytes ≡ v.done = v.split ∙ (rw (v.complete q) (append-nil v.done)) in
      record {
        done = v.done ++ done;
        rest = rest;
        split =
            ap (λ b. b ++ p) all
            ∙ (ap (λ b. v.done ++ b) split ∙ sym (append_assoc v.done done rest));
        appended = rw (appended, v.appended) (append_assoc (contents out) v.done done);
        counted = omega (arith, length-append v.done done, v.counted, counted);
        complete = λ h. complete (complete_flag _ h);
      }

  -- One more write keeps the account.
  pub emit-Wrote :
      {out : Out} {bytes : List ℕ} (p : List ℕ) {s : Progress}
      → Wrote out bytes s
      → Wrote out (bytes ++ p) (emit p s)
  unfolding emit
  emit-Wrote p {s} v = put_chunk-Wrote p s s.error refl v

  fail_with-Wrote :
      {out : Out} {bytes : List ℕ} (x : WriteError) (s : Progress) (e : Option WriteError)
      → s.error ≡ e
      → Wrote out bytes s
      → Wrote out bytes (fail_with x s e)
  fail_with-Wrote x s (some old) q v = v
  fail_with-Wrote x s none q v = record {
    done = v.done;
    rest = v.rest;
    split = v.split;
    appended = v.appended;
    counted = v.counted;
    complete = λ h. cc;
  }

  pub fail-Wrote :
      {out : Out} {bytes : List ℕ} (x : WriteError) {s : Progress}
      → Wrote out bytes s
      → Wrote out bytes (fail x s)
  unfolding fail
  fail-Wrote x {s} v = fail_with-Wrote x s s.error refl v
