-- ===== src/Factory/Written.antt =====
-- src/task.cpp: what insertCode appends for a program that is written from its instructions.
use sys_rt.Common.{
  ℕ, ◌+◌, ◌≡◌, refl, sym, ◌∙◌, ap, false, ◌||◌, not, Option, none, some, List, [], ◌∷◌, ◌++◌, map,
  Run, ok, throw, fault, hang, ◌==◌, arith, append_assoc, All, length, take, length-append,
}
use sys_rt.StrToken.{space, newline, semicolon, remove_spaces, find_at, find_last_at}
use sys_rt.StrToken.Find.{Lacks, find_last_at-append}
use sys_rt.StrToken.Params.{joined}
use sys_rt.StrToken.Nested.{Param, text, texts, IsParam, last_pieces, split_param-nested}
use sys_rt.StrToken.Instructions.{terminated, split_instr-terminated, get_token-get_param}
use sys_rt.Factory.{create, find_fn}
use sys_rt.Factory.Registry.{create-none}
use sys_rt.Factory.Variables.{Outside, open_par, close_par, comma, split}
use sys_rt.Factory.Instructions.{Instr, instr_registry}
use sys_rt.Factory.Code.{make_instr, insert_instrs, insert_code}

-- A name, of at least one character, and at least one parameter.
pub record Written : Type 0 where
  pub first : ℕ
  pub others : List ℕ
  pub params : List Param
  pub last : Param

abbrev pub name_of : Written → List ℕ
name_of w = w.first ∷ w.others

abbrev pub params_of : Written → List ℕ
params_of w =
    joined comma (texts comma open_par close_par w.params) (text comma open_par close_par w.last)

abbrev pub source : Written → List ℕ
source w = name_of w ++ open_par ∷ (params_of w ++ close_par ∷ [])

-- The name does not begin with a blank and has no parenthesis; there is no semicolon.
pub record IsWritten (w : Written) : Type 0 where
  pub visible : ((w.first == space) || (w.first == newline)) ≡ false
  pub is_name : Lacks (λ c. c == open_par) (name_of w)
  pub are_params : All (IsParam comma open_par close_par) w.params
  pub is_last : IsParam comma open_par close_par w.last
  pub one_instr : Lacks (λ c. c == semicolon) (source w)

abbrev pub pieces : Written → List (List ℕ)
pieces w =
    map remove_spaces (texts comma open_par close_par w.params)
    ++ last_pieces comma open_par close_par w.last

take-length : (s : List ℕ) → take (length s) s ≡ s
take-length [] = refl
take-length (c ∷ s) = ap (λ r. c ∷ r) (take-length s)

-- Nothing is removed from a text that begins and ends with a visible character.
remove_spaces-visible :
    (b c : ℕ) (s : List ℕ)
    → (b == space) ≡ false
    → (c == space) ≡ false
    → remove_spaces (b ∷ (s ++ c ∷ [])) ≡ b ∷ (s ++ c ∷ [])
unfolding remove_spaces
remove_spaces-visible b c s h k =
    let tk = b ∷ (s ++ c ∷ []) in
    let front : find_at (λ d. not (d == space)) 0 tk ≡ some 0 = rw h refl in
    let back : find_last_at (λ d. not (d == space)) 0 tk ≡ some (0 + length (b ∷ s)) =
      find_last_at-append (λ d. not (d == space)) 0 c (b ∷ s) (rw k refl) in
    let long : 0 + length (b ∷ s) + 1 ≡ length tk = omega (arith, length-append s (c ∷ [])) in
    rw (remove_spaces, front, back, long, front) (take-length tk)

module _ {T D : Type 0} (o : Outside T D) where
  -- What create makes of the name and the parameters, the task's name behind them.
  abbrev pub meant : List ℕ → Written → Run (Option (Instr T D))
  meant name w = create (instr_registry o) (name_of w) (pieces w ++ name ∷ [])

  -- The calls in order, each result appended, up to the first that does not return.
  abbrev pub append_all :
      List (Option (Instr T D))
      → List (Run (Option (Instr T D)))
      → List (Option (Instr T D)) × Run {0} Unit
  append_all queue [] = (queue, ok tt)
  append_all queue (ok curr ∷ calls) = append_all (queue ++ curr ∷ []) calls
  append_all queue (throw e ∷ calls) = (queue, throw e)
  append_all queue (fault ∷ calls) = (queue, fault)
  append_all queue (hang ∷ calls) = (queue, hang)

  make_instr-source :
      (name : List ℕ) (w : Written) → IsWritten w → make_instr o name (source w) ≡ meant name w
  unfolding make_instr split
  make_instr-source name w h =
      let (token, param) =
        get_token-get_param open_par close_par w.first w.others (params_of w) h.visible h.is_name in
      rw
        (
          make_instr,
          token,
          param,
          split,
          split_param-nested comma open_par close_par w.params w.last refl h.are_params h.is_last,
        )
        refl

  insert_instrs-step :
      (name i : List ℕ) (queue : List (Option (Instr T D))) (is : List (List ℕ))
      (calls : List (Run (Option (Instr T D)))) (call : Run (Option (Instr T D)))
      → make_instr o name i ≡ call
      → ((q : List (Option (Instr T D))) → insert_instrs o name q is ≡ append_all q calls)
      → insert_instrs o name queue (i ∷ is) ≡ append_all queue (call ∷ calls)
  unfolding insert_instrs
  insert_instrs-step name i queue is calls (ok curr) e h =
      rw (insert_instrs, e) (h (queue ++ curr ∷ []))
  insert_instrs-step name i queue is calls (throw x) e h = rw (insert_instrs, e) refl
  insert_instrs-step name i queue is calls fault e h = rw (insert_instrs, e) refl
  insert_instrs-step name i queue is calls hang e h = rw (insert_instrs, e) refl

  insert_instrs-source :
      (name : List ℕ) (ws : List Written)
      → All IsWritten ws
      → (queue : List (Option (Instr T D)))
      → insert_instrs o name queue (map source ws) ≡ append_all queue (map (meant name) ws)
  unfolding insert_instrs
  insert_instrs-source name [] h queue = refl
  insert_instrs-source name (w ∷ ws) h queue =
      insert_instrs-step name (source w) queue (map source ws) (map (meant name) ws) (meant name w)
        (make_instr-source name w h.0) (insert_instrs-source name ws h.1)

  remove_spaces-source : (w : Written) → IsWritten w → remove_spaces (source w) ≡ source w
  remove_spaces-source w h =
      let spaces : (w.first == space) ≡ false = ground (arith, h.visible) in
      let shape : source w ≡ w.first ∷ ((w.others ++ open_par ∷ params_of w) ++ close_par ∷ []) =
        ap (λ s. w.first ∷ s)
          (sym (append_assoc w.others (open_par ∷ params_of w) (close_par ∷ []))) in
      rw shape
        (remove_spaces-visible w.first close_par (w.others ++ open_par ∷ params_of w) spaces refl)

  map-remove_spaces-source :
      (ws : List Written) → All IsWritten ws → map remove_spaces (map source ws) ≡ map source ws
  map-remove_spaces-source [] h = refl
  map-remove_spaces-source (w ∷ ws) h =
      cc (remove_spaces-source w h.0, map-remove_spaces-source ws h.1)

  one_instr-All :
      (ws : List Written) → All IsWritten ws → All (Lacks (λ c. c == semicolon)) (map source ws)
  one_instr-All [] h = tt
  one_instr-All (w ∷ ws) h = (h.0.one_instr, one_instr-All ws h.1)

  -- For a text made of instructions, each a name with parameters in parentheses that may have a
  -- parameter in parentheses themselves, with a semicolon behind each one and anything without a
  -- semicolon at the end, insertCode appends what the factory makes of each name with its
  -- parameters, outer spaces removed and a blank last one left out, and the task's name behind
  -- them, up to the first one that the factory does not return for.
  pub insert_code-written :
      (name : List ℕ) (queue : List (Option (Instr T D))) (ws : List Written) (rest : List ℕ)
      → All IsWritten ws
      → Lacks (λ c. c == semicolon) rest
      → insert_code o name queue (terminated (map source ws) rest)
        ≡ append_all queue (map (meant name) ws)
  unfolding insert_code
  insert_code-written name queue ws rest h l =
      rw
        (
          insert_code,
          split_instr-terminated (map source ws) rest (one_instr-All ws h) l,
          map-remove_spaces-source ws h,
        )
        (insert_instrs-source name ws h queue)

  -- If the name of the first instruction of such a text is not registered, insertCode appends
  -- NULL for it and goes on with the other instructions.
  pub insert_code-unknown :
      (name : List ℕ) (queue : List (Option (Instr T D))) (w : Written) (ws : List Written)
      (rest : List ℕ)
      → find_fn (instr_registry o) (name_of w) ≡ none
      → IsWritten w
      → All IsWritten ws
      → Lacks (λ c. c == semicolon) rest
      → insert_code o name queue (terminated (map source (w ∷ ws)) rest)
        ≡ insert_code o name (queue ++ none ∷ []) (terminated (map source ws) rest)
  insert_code-unknown name queue w ws rest unknown h g l =
      let null : meant name w ≡ ok none =
        create-none (instr_registry o) (name_of w) (pieces w ++ name ∷ []) unknown in
      insert_code-written name queue (w ∷ ws) rest (h, g) l
      ∙ rw null (sym (insert_code-written name (queue ++ none ∷ []) ws rest g l))
