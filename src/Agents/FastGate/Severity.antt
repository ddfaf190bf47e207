-- ===== src/Agents/FastGate/Severity.antt =====
-- Which decision the gate takes on which findings.
use nitpicker_daemon.Prelude.{
  String, Bool, true, false, not, ◌||◌, List, [], ◌∷◌, ◌≡◌, refl, sym, ap, ◌∙◌, ◌==◌, strip, ◌⊎◌,
  arith, if◌then◌else◌, filled, any, keep, Bool-cases, inl, inr,
}
use nitpicker_daemon.Python.Errors.{
  Result, ok, raised, Error, ErrorClass, timeout_expired, bind-eq-ok,
}
use nitpicker_daemon.Python.Json.{
  Json, null, bool, num, str, arr, obj, field, Items, nil, cons, Fields, end, fields, get_or,
  is_str,
}
use nitpicker_daemon.Models.{ReviewRequest, AgentDecision, AgentStatus, warn, reject}
use nitpicker_daemon.Services.PatchService.{Process}
use nitpicker_daemon.Agents.FastGate.{
  ToolFinding, Tools, gate_timeout, tool_failed, ruff_answer, run_ruff, run_mypy, row_of,
  ruff_finding, ruff_items, ruff_report, ruff_parsed, is_error, judge, file_of, run,
}

abbrev severity_of : Result ToolFinding → Json
severity_of (ok f) = f.severity
severity_of (raised e) = null

module _ (t : Tools) where
  filled-keep : (p : ToolFinding → Bool) (fs : List ToolFinding) → filled (keep p fs) ≡ any p fs
  filled-keep p [] = refl
  filled-keep p (f ∷ fs) = ground (arith, filled-keep p fs)

  any-not :
      (fs : List ToolFinding)
      → any (is_error t) fs ≡ false
      → any (λ f. not (is_error t f)) fs ≡ filled fs
  any-not [] h = refl
  any-not (f ∷ fs) h = ground arith

  pub judge-status :
      (ruffs mypys : List ToolFinding)
      → (judge t ruffs mypys).status ≡ (
          if any (is_error t) ruffs
          then reject
          else if filled mypys || filled ruffs
          then warn
          else AgentStatus.pass)
  unfolding judge
  judge-status ruffs mypys = ground (
    arith,
    filled-keep (is_error t) ruffs,
    filled-keep (λ f. not (is_error t f)) ruffs,
    any-not ruffs,
  )

  ruff_late :
      (path : String) (e : Error)
      → t.is_python_file path ≡ true
      → t.ruff path ≡ raised e
      → e.kind ≡ timeout_expired
      → run_ruff t path ≡ ok (gate_timeout "ruff timed out after 5s" "warning")
  unfolding run_ruff ruff_answer tool_failed
  ruff_late path e python late k = rw python (rw late (rw k refl))

  judge-late :
      (mypys : List ToolFinding)
      → ((judge t (gate_timeout "ruff timed out after 5s" "warning") mypys).status ≡ warn)
        × ((judge t (gate_timeout "ruff timed out after 5s" "warning") mypys).confidence_score
            ≡ (if filled mypys then 8500 else 8000))
  unfolding judge
  judge-late mypys = ground arith

  pub timed_out-warns :
      (request : ReviewRequest) (e : Error) (mypys : List ToolFinding)
      → t.is_python_file (file_of t request) ≡ true
      → t.ruff (file_of t request) ≡ raised e
      → e.kind ≡ timeout_expired
      → run_mypy t (file_of t request) ≡ ok mypys
      → (d : AgentDecision) × (run t request ≡ ok d)
        × (d.status ≡ warn)
        × (d.confidence_score ≡ (if filled mypys then 8500 else 8000))
  unfolding run
  timed_out-warns request e mypys python late k answered =
      let gated = gate_timeout "ruff timed out after 5s" "warning" in
      (
        judge t gated mypys,
        rw (ruff_late (file_of t request) e python late k) (rw answered refl),
        (judge-late mypys).0,
        (judge-late mypys).1,
      )

  -- an item of ruff's answer with the severity error, or with none
  abbrev pub SomeError : Items → Type 0
  SomeError nil = ⊥
  SomeError (cons item rest) =
      ((fs : Fields) × (item ≡ obj fs)
        × (is_str "error" (get_or "severity" (str "error") (fields fs)) ≡ true))
      ⊎ SomeError rest

  ruff_finding-severity :
      (item : Json) (f : ToolFinding)
      → ruff_finding item ≡ ok f
      → (fs : Fields) × (item ≡ obj fs) × (f.severity ≡ get_or "severity" (str "error") (fields fs))
  unfolding ruff_finding
  ruff_finding-severity (obj fs) f h =
      let (row, found, made) = bind-eq-ok (row_of (get_or "location" (obj end) (fields fs))) _ h in
      (fs, refl, sym (ap severity_of made))
  ruff_finding-severity _ f h = cc

  ruff_items-SomeError :
      (items : Items) (fs : List ToolFinding)
      → ruff_items items ≡ ok fs
      → any (is_error t) fs ≡ true
      → SomeError items
  unfolding ruff_items
  ruff_items-SomeError nil fs h e = let same : [] ≡ fs = cc h in cc (rw (← same) at e)
  ruff_items-SomeError (cons item rest) fs h e =
      let (f, first, h1) = bind-eq-ok (ruff_finding item) _ h in
      let (fs', others, made) = bind-eq-ok (ruff_items rest) _ h1 in
      let (ks, is_obj, same) = ruff_finding-severity item f first in
      let later = ruff_items-SomeError rest fs' others in
      let all_of_them : fs ≡ f ∷ fs' = cc made in
      let errors : (is_error t f || any (is_error t) fs') ≡ true =
        ap (any (is_error t)) (sym all_of_them) ∙ e in
      elim (Bool-cases (is_error t f)) [
        | inl y ↦ inl (ks, is_obj, ap (is_str "error") (sym same) ∙ y)
        | inr n ↦ inr (later (ground arith))
      ]

  ruff_report-SomeError :
      (v : Json) (fs : List ToolFinding)
      → ruff_report v ≡ ok fs
      → any (is_error t) fs ≡ true
      → (items : Items) × (v ≡ arr items) × SomeError items
  unfolding ruff_report
  ruff_report-SomeError (arr items) fs h e = (items, refl, ruff_items-SomeError items fs h e)
  ruff_report-SomeError (str s) fs h e = absurd (ground arith)
  ruff_report-SomeError (obj end) fs h e = absurd (ground arith)
  ruff_report-SomeError (obj (field _ _ _)) fs h e = cc
  ruff_report-SomeError null fs h e = cc
  ruff_report-SomeError (bool b) fs h e = cc
  ruff_report-SomeError (num n) fs h e = cc

  ruff_parsed-SomeError :
      (r : Result Json) (fs : List ToolFinding)
      → ruff_parsed r ≡ ok fs
      → any (is_error t) fs ≡ true
      → (items : Items) × (r ≡ ok (arr items)) × SomeError items
  unfolding ruff_parsed
  ruff_parsed-SomeError (ok v) fs h e =
      let (items, same, some_error) = ruff_report-SomeError v fs h e in
      (items, ap ok same, some_error)
  ruff_parsed-SomeError (raised x) fs h e = absurd (ground arith)

  -- ruff ran, and its answer has an item that counts as an error
  pub record RuffError (path : String) : Type 0 where
    pub python : t.is_python_file path ≡ true
    pub process : Process
    pub ran : t.ruff path ≡ ok process
    pub items : Items
    pub parsed : t.loads process.stdout ≡ ok (arr items)
    pub some_error : SomeError items

  tool_failed-fine :
      (late fs : List ToolFinding) (x : Error) (k : ErrorClass)
      → any (is_error t) late ≡ false
      → tool_failed late x k ≡ ok fs
      → any (is_error t) fs ≡ false
  unfolding tool_failed
  tool_failed-fine late fs x k fine h = ground arith

  ruff_answer-RuffError :
      (path : String) (r : Result Process) (fs : List ToolFinding)
      → t.is_python_file path ≡ true
      → t.ruff path ≡ r
      → ruff_answer t r ≡ ok fs
      → any (is_error t) fs ≡ true
      → RuffError path
  unfolding ruff_answer
  ruff_answer-RuffError path (ok p) fs python ran h e = elim (Bool-cases (strip p.stdout == "")) [
    | inl blank ↦ absurd (ground arith)
    | inr text ↦
        let (items, parsed, some_error) =
          ruff_parsed-SomeError (t.loads p.stdout) fs (rw text at h) e in
        record {
          python = python;
          process = p;
          ran = ran;
          items = items;
          parsed = parsed;
          some_error = some_error;
        }
  ]
  ruff_answer-RuffError path (raised x) fs python ran h e =
      absurd (
        cc (tool_failed-fine (gate_timeout "ruff timed out after 5s" "warning") fs x x.kind refl h))

  run_ruff-RuffError :
      (path : String) (fs : List ToolFinding)
      → run_ruff t path ≡ ok fs
      → any (is_error t) fs ≡ true
      → RuffError path
  unfolding run_ruff
  run_ruff-RuffError path fs h e = elim (Bool-cases (t.is_python_file path)) [
    | inl y ↦ ruff_answer-RuffError path (t.ruff path) fs y refl (rw y at h) e
    | inr n ↦ absurd (ground arith)
  ]

  -- If the fast gate rejects, the file is a Python file, ruff ran on it and returned, and its
  -- answer parsed to a list with an item whose severity is error or missing.
  pub rejection-RuffError :
      (request : ReviewRequest) (d : AgentDecision)
      → run t request ≡ ok d
      → d.status ≡ reject
      → RuffError (file_of t request)
  unfolding run
  rejection-RuffError request d h rejected =
      let (ruffs, found, h1) = bind-eq-ok (run_ruff t (file_of t request)) _ h in
      let (mypys, checked, made) = bind-eq-ok (run_mypy t (file_of t request)) _ h1 in
      let decided : d ≡ judge t ruffs mypys = cc made in
      run_ruff-RuffError (file_of t request) ruffs found
        (ground (arith, judge-status ruffs mypys, ap (λ (x : AgentDecision). x.status) decided))
