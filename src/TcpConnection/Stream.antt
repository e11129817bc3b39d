-- ===== src/TcpConnection/Stream.antt =====
-- The bytes of a connection: what the socket has taken, followed by the output buffer, is the
-- accepted messages in order, and the channel waits to write exactly while the buffer holds bytes.
use suduo.Prelude.{
  ℕ, ◌<◌, ◌≡◌, refl, sym, ap, ◌∙◌, ◌⊎◌, inr, Bool, true, false, Option, some, ◌++◌, if◌then◌else◌,
  length,
}
use suduo.Buffer.{Buffer, readable_bytes}
use suduo.Buffer.Space.{IsValid, contents, readable-eq, length-contents}
use suduo.Buffer.Contents.{new_lem}
use suduo.TcpConnection.{Connection, is_disconnected, new}

abbrev pub held : Connection → ℕ
held c = length (contents c.output)

-- Whether the channel waits to write.
abbrev pub Waits : Bool → Bool → ℕ → Type 0
Waits gone writing n =
    ((gone ≡ true) × (writing ≡ false))
    ⊎ (((gone ≡ false) × (writing ≡ true) × (0 < n))
        ⊎ ((gone ≡ false) × (writing ≡ false) × (n ≡ 0)))

pub record Inv (c : Connection) : Type 0 where
  pub input_valid : IsValid c.input
  pub output_valid : IsValid c.output
  pub stream : c.sent ++ contents c.output ≡ c.accepted
  pub waits : Waits (is_disconnected c.state) c.events.write (held c)

abbrev pub Keeps : Option Connection → Type 0
Keeps r = (c : Connection) × (r ≡ some c) × Inv c

pub new-Inv : Inv new
unfolding new
new-Inv = record {
  input_valid = (new_lem 1024).0;
  output_valid = (new_lem 1024).0;
  stream = (new_lem 1024).1;
  waits = inr (inr (refl, refl, ap length (new_lem 1024).1));
}

pub readable-length : {b : Buffer} → IsValid b → readable_bytes b ≡ length (contents b)
readable-length v = readable-eq v ∙ sym (length-contents v)

pub if-Inv : {c d : Connection} (test : Bool) → Inv c → Inv d → Inv (if test then c else d)
if-Inv true p q = p
if-Inv false p q = q
