-- ===== src/Ipc/Framing.antt =====
-- The frames on the socket: one line of JSON each (common/src/lib.rs, daemon/src/ipc.rs and
-- daemon/src/cli.rs).
use nicewatch.Prelude.{
  ℕ, ◌≡◌, refl, ap, ◌∙◌, Bool, true, false, List, [], ◌∷◌, ◌++◌, Option, none, some, if◌then◌else◌,
  eqb, arith, inl, inr, Bool-cases, ◌||◌, all, not, ltb,
}
use mathlib.Core.List.{append_assoc}
use nicewatch.Prelude.Text.{Text, is_empty}
use nicewatch.Prelude.Scan.{trim}
use nicewatch.Prelude.Scan.Words.{Lacks}
use nicewatch.Wire.{ServerMsg, Snapshot}

-- `serde_json`, for one type of messages.
pub record Json (M : Type 0) : Type 0 where
  pub to_json : M → Text
  pub from_json : Text → Option M

-- On the wire, a number below 0x110000 is a character, and each byte that is no part of one in UTF-8
-- is a number from there on.
abbrev pub is_utf8 : Text → Bool
is_utf8 t = all (λ c. ltb c 0x110000) t

-- What it documents, of a message: its text is a `String` that decodes to it, is one line, and has
-- white space at neither end.
pub record IsJson {M : Type 0} (j : Json M) (m : M) : Type 0 where
  pub decodes : j.from_json (j.to_json m) ≡ some m
  pub one_line : Lacks 10 (j.to_json m)
  pub trimmed : trim (j.to_json m) ≡ j.to_json m
  pub some_text : is_empty (j.to_json m) ≡ false
  pub utf8 : is_utf8 (j.to_json m) ≡ true

abbrev pub AllJson : {M : Type 0} → Json M → List M → Type 0
AllJson j [] = Unit {0}
AllJson j (m ∷ msgs) = IsJson j m × AllJson j msgs

abbrev start_line : ℕ → List Text → List Text
start_line c [] = (c ∷ []) ∷ []
start_line c (l ∷ ls) = (c ∷ l) ∷ ls

-- What repeated `read_line` reads up to the end, without the line feed that ends a line: its callers
-- trim that.
unfoldable pub read_lines : Text → List Text
read_lines [] = []
read_lines (c ∷ s) = let rest = read_lines s in if eqb c 10 then [] ∷ rest else start_line c rest

module _ {M : Type 0} (j : Json M) where
  unfoldable pub encode_msg : M → Text
  encode_msg m = j.to_json m ++ (10 ∷ [])

  -- What is written for a list of messages.
  unfoldable pub encode_all : List M → Text
  unfolding encode_msg
  encode_all [] = []
  encode_all (m ∷ msgs) = encode_msg m ++ encode_all msgs

  add_request : Option M → List M → List M
  add_request none rest = rest
  add_request (some m) rest = m ∷ rest

  -- The loop of a reader thread: the requests that it forwards. A line that is not UTF-8 is an error
  -- of `read_line`, which ends the loop. The daemon's end of the channel lives as long as the daemon.
  unfoldable pub forward : List Text → List M
  unfolding add_request
  forward [] = []
  forward (line ∷ lines) =
      let rest = forward lines in
      if not (is_utf8 line)
      then []
      else if is_empty (trim line)
      then rest
      else add_request (j.from_json (trim line)) rest

-- The result of `ps`: the snapshot, or why there is none.
pub data Reply (F : Type 0) : Type 0 where
  got : Snapshot F → Reply F
  closed : Reply F
  bad_frame : Text → Reply F

module _ {F : Type 0} (j : Json (ServerMsg F)) where
  -- One frame, and what follows if it is no snapshot.
  reply_to : Text → Option (ServerMsg F) → Reply F → Reply F
  reply_to line none rest = bad_frame line
  reply_to line (some (ServerMsg.snapshot s)) rest = got s
  reply_to line (some _) rest = rest

  -- The loop of `ps` over the lines of the daemon.
  unfoldable pub read_snapshot : List Text → Reply F
  unfolding reply_to
  read_snapshot [] = closed
  read_snapshot (line ∷ lines) =
      let rest = read_snapshot lines in
      if not (is_utf8 line)
      then closed
      else if is_empty (trim line)
      then rest
      else reply_to (trim line) (j.from_json (trim line)) rest

read_lines-line : (t rest : Text) → Lacks 10 t → read_lines (t ++ 10 ∷ rest) ≡ t ∷ read_lines rest
unfolding read_lines all
read_lines-line [] rest l = refl
read_lines-line (c ∷ t) rest l =
    let c_other : eqb c 10 ≡ false = ground (arith, l) in
    rw (read_lines-line t rest (ground (arith, l)), c_other) refl

-- What a client may send: a message, a line that is none, or one that is not UTF-8.
pub data Frame (M : Type 0) : Type 0 where
  message : M → Frame M
  noise broken : Text → Frame M

abbrev is_nothing {ℓ} : {A : Type ℓ} → Option A → Bool
is_nothing none = true
is_nothing (some a) = false

module _ {M : Type 0} (j : Json M) where
  abbrev pub line_of : Frame M → Text
  line_of (message m) = j.to_json m
  line_of (noise t) = t
  line_of (broken t) = t

  abbrev pub wire : List (Frame M) → Text
  wire [] = []
  wire (f ∷ frames) = line_of f ++ (10 ∷ wire frames)

  -- The messages before the first line that is not UTF-8.
  abbrev pub messages : List (Frame M) → List M
  messages [] = []
  messages (message m ∷ frames) = m ∷ messages frames
  messages (noise t ∷ frames) = messages frames
  messages (broken t ∷ frames) = []

  -- Each message is as the crate documents, and each line that is no message is one line, and is
  -- blank or does not decode, or else is not UTF-8.
  abbrev pub IsFair : List (Frame M) → Type 0
  IsFair [] = Unit {0}
  IsFair (message m ∷ frames) = IsJson j m × IsFair frames
  IsFair (noise t ∷ frames) =
      Lacks 10 t
      × (is_utf8 t ≡ true)
      × ((is_empty (trim t) || is_nothing (j.from_json (trim t))) ≡ true)
      × IsFair frames
  IsFair (broken t ∷ frames) = Lacks 10 t × (is_utf8 t ≡ false)

  forward-message :
      (m : M) (lines : List Text)
      → IsJson j m
      → forward j (j.to_json m ∷ lines) ≡ m ∷ forward j lines
  unfolding forward
  forward-message m lines json =
      rw json.utf8 (rw json.trimmed (rw json.some_text (rw json.decodes refl)))

  skipped : (o : Option M) (rest : List M) → is_nothing o ≡ true → add_request j o rest ≡ rest
  unfolding add_request
  skipped none rest e = refl
  skipped (some m) rest e = cc

  forward-noise :
      (t : Text) (lines : List Text)
      → is_utf8 t ≡ true
      → (is_empty (trim t) || is_nothing (j.from_json (trim t))) ≡ true
      → forward j (t ∷ lines) ≡ forward j lines
  unfolding forward
  forward-noise t lines u e = elim (Bool-cases (is_empty (trim t))) [
    | inl blank ↦ rw (u, blank) refl
    | inr text ↦ rw (u, text) (skipped (j.from_json (trim t)) (forward j lines) (ground arith))
  ]

  forward-nothing : forward j (read_lines []) ≡ []
  unfolding forward read_lines
  forward-nothing = refl

  forward-broken : (t : Text) (lines : List Text) → is_utf8 t ≡ false → forward j (t ∷ lines) ≡ []
  unfolding forward
  forward-broken t lines u = rw u refl

  -- The daemon gets exactly the messages that a client has written before its first line that is not
  -- UTF-8, which ends the connection, in order, whatever blank lines and lines of other text stand
  -- between them.
  pub requests_received :
      (frames : List (Frame M))
      → IsFair frames
      → forward j (read_lines (wire frames)) ≡ messages frames
  requests_received [] fair = forward-nothing
  requests_received (message m ∷ frames) (json, fair) =
      rw (read_lines-line (j.to_json m) (wire frames) json.one_line) (
        forward-message m (read_lines (wire frames)) json
        ∙ ap (◌∷◌ m) (requests_received frames fair))
  requests_received (noise t ∷ frames) (plain, utf8, bad, fair) =
      rw (read_lines-line t (wire frames) plain)
        (forward-noise t (read_lines (wire frames)) utf8 bad ∙ requests_received frames fair)
  requests_received (broken t ∷ frames) (plain, bytes) =
      rw (read_lines-line t (wire frames) plain) (forward-broken t (read_lines (wire frames)) bytes)

module _ {F : Type 0} (j : Json (ServerMsg F)) where
  abbrev pub is_snapshot : ServerMsg F → Bool
  is_snapshot (ServerMsg.snapshot s) = true
  is_snapshot _ = false

  read_lines-encode_msg :
      (m : ServerMsg F) (rest : Text)
      → IsJson j m
      → read_lines (encode_msg j m ++ rest) ≡ j.to_json m ∷ read_lines rest
  unfolding encode_msg
  read_lines-encode_msg m rest json =
      ap read_lines (append_assoc (j.to_json m) (10 ∷ []) rest)
      ∙ read_lines-line (j.to_json m) rest json.one_line

  read_snapshot-frame :
      (m : ServerMsg F) (lines : List Text)
      → IsJson j m
      → read_snapshot j (j.to_json m ∷ lines)
        ≡ reply_to j (j.to_json m) (some m) (read_snapshot j lines)
  unfolding read_snapshot
  read_snapshot-frame m lines json =
      rw json.utf8 (rw json.trimmed (rw json.some_text (rw json.decodes refl)))

  passed_over :
      (line : Text) (m : ServerMsg F) (rest : Reply F)
      → is_snapshot m ≡ false
      → reply_to j line (some m) rest ≡ rest
  unfolding reply_to
  passed_over line (ServerMsg.snapshot s) rest e = cc
  passed_over line (ServerMsg.hello name version ms) rest e = refl
  passed_over line (ServerMsg.diff d) rest e = refl
  passed_over line (ServerMsg.prompt_game p) rest e = refl
  passed_over line (ServerMsg.warning t) rest e = refl

  next_frame :
      (m : ServerMsg F) (rest : Text)
      → IsJson j m
      → read_snapshot j (read_lines (encode_msg j m ++ rest))
        ≡ reply_to j (j.to_json m) (some m) (read_snapshot j (read_lines rest))
  next_frame m rest json =
      ap (read_snapshot j) (read_lines-encode_msg m rest json)
      ∙ read_snapshot-frame m (read_lines rest) json

  -- `ps` prints the first snapshot that the daemon sends, whatever other messages come before it and
  -- whatever follows.
  pub first_snapshot_read :
      (before : List (ServerMsg F)) (s : Snapshot F) (rest : Text)
      → all (λ m. not (is_snapshot m)) before ≡ true
      → AllJson j (before ++ (ServerMsg.snapshot s ∷ []))
      → read_snapshot j
          (read_lines (encode_all j before ++ (encode_msg j (ServerMsg.snapshot s) ++ rest)))
        ≡ got s
  unfolding encode_all all reply_to
  first_snapshot_read [] s rest other (json, done) = next_frame (ServerMsg.snapshot s) rest json
  first_snapshot_read (m ∷ before) s rest other (json, more) =
      let tail = encode_msg j (ServerMsg.snapshot s) ++ rest in
      ap (λ t. read_snapshot j (read_lines t))
        (append_assoc (encode_msg j m) (encode_all j before) tail)
      ∙ (next_frame m (encode_all j before ++ tail) json
          ∙ (passed_over (j.to_json m) m _ (ground (arith, other))
              ∙ first_snapshot_read before s rest (ground (arith, other)) more))
