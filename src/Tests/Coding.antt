-- ===== src/Tests/Coding.antt =====
-- Concrete codings for the tests: numbers shifted above the newline, fields in a row.
pub mod Records
use chatta.Prelude.{
  length, all, ℕ, zero, suc, ◌+◌, ◌-◌, ◌≡◌, refl, ap, ◌∙◌, ◌≢◌, Bool, true, false, Option, none,
  some, List, [], ◌∷◌, ◌++◌, arith,
}
use chatta.Prelude.Int.{ℤ, pos, negsuc}
use chatta.Text.Basic.{Text}
use chatta.Common.{ChatSession, OwnerBinding, ChannelMembership, StoredMessage, CodexBinding}
use chatta.Dal.AtomicFile.{Bytes}
use chatta.Dal.State.{Codec}
use chatta.Dal.Store.{MessageCodec, is_not_newline}

pub record Coding (A : Type 0) : Type 0 where
  pub write : A → Bytes → Bytes
  pub read : Bytes → Option (A × Bytes)
  pub read-write : (a : A) (s : Bytes) → read (write a s) ≡ some (a, s)
  pub write-append : (a : A) (s t : Bytes) → write a s ++ t ≡ write a (s ++ t)
  pub write-lines :
      (a : A) (s : Bytes) → all is_not_newline s ≡ true → all is_not_newline (write a s) ≡ true

abbrev read_number : Bytes → Option (ℕ × Bytes)
read_number [] = none
read_number (c ∷ s) = some (c - 11, s)

pub shifted-lines :
    (n : ℕ) (s : Bytes) → all is_not_newline s ≡ true → all is_not_newline ((n + 11) ∷ s) ≡ true
shifted-lines n s h = ground arith

abbrev number : Coding ℕ
number = record {
  write = λ n s. (n + 11) ∷ s;
  read = read_number;
  read-write = λ n s. ap (λ k. some (k, s)) (omega arith);
  write-append = λ n s t. refl;
  write-lines = shifted-lines;
}

module _ {A B : Type 0} (a : Coding A) (b : Coding B) where
  abbrev paired : A → Option (B × Bytes) → Option ((A × B) × Bytes)
  paired x none = none
  paired x (some (y, s)) = some ((x, y), s)

  abbrev read_second : Option (A × Bytes) → Option ((A × B) × Bytes)
  read_second none = none
  read_second (some (x, s)) = paired x (b.read s)

  abbrev both : Coding (A × B)
  both = record {
    write = λ p s. a.write p.0 (b.write p.1 s);
    read = λ s. read_second (a.read s);
    read-write = λ p s.
        ap read_second (a.read-write p.0 (b.write p.1 s)) ∙ ap (paired p.0) (b.read-write p.1 s);
    write-append =
        λ p s t. a.write-append p.0 (b.write p.1 s) t ∙ ap (a.write p.0) (b.write-append p.1 s t);
    write-lines = λ p s h. a.write-lines p.0 (b.write p.1 s) (b.write-lines p.1 s h);
  }

module _ {A B : Type 0} (f : A → B) (g : B → A) (back : (y : B) → f (g y) ≡ y) (a : Coding A) where
  abbrev by_image : Option (A × Bytes) → Option (B × Bytes)
  by_image none = none
  by_image (some (x, s)) = some (f x, s)

  abbrev through : Coding B
  through = record {
    write = λ y s. a.write (g y) s;
    read = λ s. by_image (a.read s);
    read-write = λ y s. rw (a.read-write (g y) s, back y);
    write-append = λ y s t. a.write-append (g y) s t;
    write-lines = λ y s h. a.write-lines (g y) s h;
  }

module _ {A : Type 0} (a : Coding A) where
  abbrev write_items : List A → Bytes → Bytes
  write_items [] s = s
  write_items (x ∷ xs) s = a.write x (write_items xs s)

  abbrev onto_items : A → Option (List A × Bytes) → Option (List A × Bytes)
  onto_items x none = none
  onto_items x (some (xs, s)) = some (x ∷ xs, s)

  abbrev read_next :
      (Bytes → Option (List A × Bytes)) → Option (A × Bytes) → Option (List A × Bytes)
  read_next rest none = none
  read_next rest (some (x, s)) = onto_items x (rest s)

  abbrev read_items : ℕ → Bytes → Option (List A × Bytes)
  read_items zero s = some ([], s)
  read_items (suc n) s = read_next (read_items n) (a.read s)

  pub read_items-write_items :
      (xs : List A) (s : Bytes) → read_items (length xs) (write_items xs s) ≡ some (xs, s)
  read_items-write_items [] s = refl
  read_items-write_items (x ∷ xs) s =
      ap (read_next (read_items (length xs))) (a.read-write x (write_items xs s))
      ∙ ap (onto_items x) (read_items-write_items xs s)

  pub write_items-lines :
      (xs : List A) (s : Bytes)
      → all is_not_newline s ≡ true
      → all is_not_newline (write_items xs s) ≡ true
  write_items-lines [] s h = h
  write_items-lines (x ∷ xs) s h = a.write-lines x (write_items xs s) (write_items-lines xs s h)

  pub write_items-append :
      (xs : List A) (s t : Bytes) → write_items xs s ++ t ≡ write_items xs (s ++ t)
  write_items-append [] s t = refl
  write_items-append (x ∷ xs) s t =
      a.write-append x (write_items xs s) t ∙ ap (a.write x) (write_items-append xs s t)

  abbrev read_counted : Option (ℕ × Bytes) → Option (List A × Bytes)
  read_counted none = none
  read_counted (some (n, s)) = read_items n s

  abbrev items : Coding (List A)
  items = record {
    write = λ xs s. number.write (length xs) (write_items xs s);
    read = λ s. read_counted (number.read s);
    read-write = λ xs s.
        ap read_counted (number.read-write (length xs) (write_items xs s))
        ∙ read_items-write_items xs s;
    write-append = λ xs s t. ap (◌∷◌ (length xs + 11)) (write_items-append xs s t);
    write-lines =
        λ xs s h. number.write-lines (length xs) (write_items xs s) (write_items-lines xs s h);
  }

abbrev integer_of : ℕ × ℕ → ℤ
integer_of (zero, n) = pos n
integer_of (suc _, n) = negsuc n

abbrev of_integer : ℤ → ℕ × ℕ
of_integer (pos n) = (0, n)
of_integer (negsuc n) = (1, n)

pub integer_back : (n : ℤ) → integer_of (of_integer n) ≡ n
integer_back (pos n) = refl
integer_back (negsuc n) = refl

abbrev integer : Coding ℤ
integer = through integer_of of_integer integer_back (both number number)

abbrev flag_of : ℕ → Bool
flag_of zero = false
flag_of (suc _) = true

abbrev of_flag : Bool → ℕ
of_flag false = 0
of_flag true = 1

pub flag_back : (b : Bool) → flag_of (of_flag b) ≡ b
flag_back false = refl
flag_back true = refl

abbrev flag : Coding Bool
flag = through flag_of of_flag flag_back number

abbrev text : Coding Text
text = items number

abbrev channel : Coding ChannelMembership
channel =
    through (λ p. record { name = p.0; kind = p.1.0; joined_at = p.1.1.0; confirmed = p.1.1.1 })
      (λ c. (c.name, (c.kind, (c.joined_at, c.confirmed)))) (λ c. refl)
      (both text (both text (both number flag)))

abbrev owner : Coding OwnerBinding
owner =
    through (λ p. record { pid = p.0; start_fingerprint = p.1.0; runtime = p.1.1 })
      (λ c. (c.pid, (c.start_fingerprint, c.runtime))) (λ c. refl) (both integer (both text text))

abbrev message : Coding StoredMessage
message =
    through
      (λ p. record {
        event_id = p.0.0;
        source = p.0.1;
        ts = p.1.0;
        kind = p.1.1.0;
        target = p.1.1.1.0;
        nick = p.1.1.1.1.0;
        text = p.1.1.1.1.1;
      })
      (λ m. ((m.event_id, m.source), (m.ts, (m.kind, (m.target, (m.nick, m.text)))))) (λ m. refl)
      (both (both text text) (both integer (both text (both text (both text text)))))

abbrev session : Coding ChatSession
session =
    through
      (λ p. record {
        schema_version = p.0.0;
        nick = p.0.1.0;
        role = p.0.1.1.0;
        host = p.0.1.1.1.0;
        port = p.0.1.1.1.1;
        home_channel = p.1.0.0;
        channels = p.1.0.1.0;
        owner = p.1.0.1.1;
        session_id = p.1.1.0;
        supervisor_pid = p.1.1.1.0;
        supervisor_start_fingerprint = p.1.1.1.1.0;
        started_at = p.1.1.1.1.1;
      })
      (λ s. (
        (s.schema_version, (s.nick, (s.role, (s.host, s.port)))),
        (
          (s.home_channel, (s.channels, s.owner)),
          (s.session_id, (s.supervisor_pid, (s.supervisor_start_fingerprint, s.started_at))),
        ),
      ))
      (λ s. refl)
      (both (both integer (both text (both text (both text integer)))) (
        both (both channel (both (items channel) owner))
          (both text (both integer (both text number)))))

abbrev binding : Coding CodexBinding
binding =
    through
      (λ p. record {
        binding_id = p.0.0;
        session_id = p.0.1.0;
        endpoint = p.0.1.1.0;
        thread_id = p.0.1.1.1.0;
        enabled = p.0.1.1.1.1;
        offset = p.1.0.0;
        replay = p.1.0.1.0;
        mention_current_identity = p.1.0.1.1.0;
        subscribed_channels = p.1.0.1.1.1;
        delivery_blocked = p.1.1.0;
        delivery_state = p.1.1.1.0;
        delivery_error = p.1.1.1.1.0;
        no_start_after_steer_failure = p.1.1.1.1.1.0;
        updated_at = p.1.1.1.1.1.1;
      })
      (λ b. (
        (b.binding_id, (b.session_id, (b.endpoint, (b.thread_id, b.enabled)))),
        (
          (b.offset, (b.replay, (b.mention_current_identity, b.subscribed_channels))),
          (
            b.delivery_blocked,
            (b.delivery_state, (b.delivery_error, (b.no_start_after_steer_failure, b.updated_at))),
          ),
        ),
      ))
      (λ b. refl)
      (both (both text (both text (both text (both text flag)))) (
        both (both integer (both flag (both flag (items text))))
          (both flag (both text (both text (both flag number))))))

module _ {A : Type 0} (a : Coding A) where
  abbrev first_read : Option (A × Bytes) → Option A
  first_read none = none
  first_read (some (x, s)) = some x

  abbrev pub file_codec : Codec A
  file_codec = record {
    encode = λ x. a.write x [];
    decode = λ s. first_read (a.read s);
    decode-encode = λ x.
        ap (λ s. first_read (a.read s)) (a.write-append x [] (b'\n' ∷ []))
        ∙ ap first_read (a.read-write x (b'\n' ∷ []));
  }

pub cons-ne-nil : (x : ℕ) (s : Bytes) → x ∷ s ≢ []
cons-ne-nil x s = λ e. cc

abbrev pub message_codec : MessageCodec
message_codec = record {
  encode = λ m. message.write m [];
  decode = λ s. first_read message (message.read s);
  encode-ne-nil = λ m. cons-ne-nil _ _;
  encode-one_line = λ m. message.write-lines m [] refl;
  decode-encode = λ m. ap (first_read message) (message.read-write m []);
}

abbrev pub session_codec : Codec ChatSession
session_codec = file_codec session

abbrev pub binding_codec : Codec CodexBinding
binding_codec = file_codec binding
