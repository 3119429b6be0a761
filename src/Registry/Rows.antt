-- ===== src/Registry/Rows.antt =====
-- The rows that the SQLite backend hands out, and the statements that the other drivers get.
use memcove.Common.{
  ℕ, ◌≡◌, refl, ap, sym, ◌∙◌, Bool, true, false, not, ◌&&◌, List, [], ◌∷◌, map, Text, codes,
  text_eq, all, ◌==◌, ==_iff, arith, inl, inr, Bool-cases, if◌then◌else◌,
}
use memcove.Common.Result.{Result, ok, >>=-eq-ok, ok-injective}
use memcove.Registry.Backends.{Backend, postgres, sqlite, mysql}
use memcove.Registry.Drivers.{
  RowCell, text, datetime, other, is_timestamp, parsed, normalize, placeholder, replace_mark,
  translate,
}

-- whether a cell is a text
abbrev pub is_str : {D O : Type 0} → RowCell D O → Bool
is_str (text t) = true
is_str (datetime d) = false
is_str (other o) = false

-- no timestamp of the row is a text
abbrev pub all_typed : {D O : Type 0} → List (Text × RowCell D O) → Bool
all_typed [] = true
all_typed ((column, c) ∷ row) = if is_timestamp column && is_str c then false else all_typed row

module _ {D O : Type 0} (fromisoformat : Text → Result D) where
  parsed-typed : (c cell : RowCell D O) → parsed fromisoformat c ≡ ok cell → is_str cell ≡ false
  unfolding parsed
  parsed-typed (text t) cell h =
      let (d, one, made) = >>=-eq-ok (fromisoformat t) _ h in
      ap is_str (sym (ok-injective (datetime d) cell made))
  parsed-typed (datetime d) cell h = ap is_str (sym (ok-injective (datetime d) cell h))
  parsed-typed (other o) cell h = ap is_str (sym (ok-injective (other o) cell h))

  cell-typed :
      (column : Text) (c cell : RowCell D O)
      → (if is_timestamp column then parsed fromisoformat c else ok c) ≡ ok cell
      → (is_timestamp column && is_str cell) ≡ false
  cell-typed column c cell h = elim (Bool-cases (is_timestamp column)) [
    | inl stamp ↦ rw stamp (parsed-typed c cell (ground arith))
    | inr plain ↦ rw plain refl
  ]

  -- A row of the SQLite backend that is handed out has the columns of the database's row, in order,
  -- and its timestamps are no texts.
  pub normalize-typed :
      (row out : List (Text × RowCell D O))
      → normalize fromisoformat row ≡ ok out
      → (map (λ c. c.0) out ≡ map (λ c. c.0) row) × (all_typed out ≡ true)
  unfolding normalize
  normalize-typed [] out h =
      let e = ok-injective [] out h in (ap (map (λ c. c.0)) (sym e), ap all_typed (sym e))
  normalize-typed ((column, c) ∷ row) out h =
      let (cell, one, h₁) =
        >>=-eq-ok (if is_timestamp column then parsed fromisoformat c else ok c) _ h in
      let (rest, two, h₂) = >>=-eq-ok (normalize fromisoformat row) _ h₁ in
      let (names, typed) = normalize-typed row rest two in
      let here = cell-typed column c cell one in
      let e = ok-injective ((column, cell) ∷ rest) out h₂ in
      (
        ap (map (λ q. q.0)) (sym e) ∙ ap (λ q. column ∷ q) names,
        ap all_typed (sym e) ∙ rw here typed,
      )

-- `sql.replace("%s", "?")`
unfoldable pub restore : Text → Text
restore [] = []
restore (c ∷ []) = c ∷ []
restore (c ∷ d ∷ s) =
    let marked = b'?' ∷ restore s in
    let kept = c ∷ restore (d ∷ s) in if (c == b'%') && (d == b's') then marked else kept

restore-cons : (c : ℕ) (s : Text) → (c == b'%') ≡ false → restore (c ∷ s) ≡ c ∷ restore s
unfolding restore
restore-cons c [] h = refl
restore-cons c (d ∷ s) h = rw h refl

restore-marked :
    (sql : Text)
    → all (λ c. not (c == b'%')) sql ≡ true
    → (restore (replace_mark (codes "%s") sql) ≡ sql) × (restore sql ≡ sql)
unfolding restore replace_mark all
restore-marked [] h = (refl, refl)
restore-marked (c ∷ sql) h =
    let (marked, plain) = restore-marked sql (ground arith) in
    let apart : (c == b'%') ≡ false = ground arith in
    (
      elim (Bool-cases (c == b'?')) [
        | inl mark ↦
            let e : c ≡ b'?' = (==_iff c b'?').0 mark in
            rw mark (ap (λ q. b'?' ∷ q) marked ∙ ap (λ q. q ∷ sql) (sym e))
        | inr keep ↦
            rw keep (restore-cons c (replace_mark (codes "%s") sql) apart ∙ ap (λ q. c ∷ q) marked)
      ],
      restore-cons c sql apart ∙ ap (λ q. c ∷ q) plain,
    )

-- Every driver gets the statement that was written: where it has no percent sign of its own, the
-- placeholders of any backend replaced by question marks give the statement again.
pub restore-translate :
    (b : Backend) (sql : Text)
    → all (λ c. not (c == b'%')) sql ≡ true
    → restore (translate b sql) ≡ sql
unfolding translate placeholder text_eq
restore-translate (postgres dsn) sql h = (restore-marked sql h).0
restore-translate (sqlite path) sql h = (restore-marked sql h).1
restore-translate (mysql dsn) sql h = (restore-marked sql h).0
