-- ===== src/Signup/Service/RoundTrip.antt =====
-- A sign-up from the request to the confirmation (usecase/signup.go), with a database that refuses
-- nothing.
use hamburger_evaluation.Base.{suc, ◌*◌, ◌^◌, ◌≡◌, String, ◌∷◌}
use Prim.Native.String.{◌++◌ as cat}
use hamburger_evaluation.Signup.{
  Mail, confirmation, notice, Tables, Mailbox, SignupVerification, CreateSignupVerificationParams,
  first_row,
}
use hamburger_evaluation.Signup.Service.{Env, SignupInput, confirmation_mail}

module _ (env : Env) (i : SignupInput) (digest : String) (w : Mailbox) where
  abbrev raw : String
  raw = env.random w.drawn

  abbrev params : CreateSignupVerificationParams
  params = record {
    email = i.email;
    username = i.username;
    password_digest = digest;
    token_hash = env.hash_token raw;
  }

  abbrev row : Tables → SignupVerification
  row t = first_row env.lower env.new_id params t

  abbrev waiting : Tables → Tables
  waiting t = record t { verifications = row t ∷ t.verifications; serial = suc t.serial }

  abbrev mailed : Tables → Mailbox
  mailed t = record {
    mails = confirmation_mail env i raw (env.new_id t.serial) 1 ∷ w.mails;
    drawn = suc w.drawn;
  }

  -- The link that a mail has.
  abbrev pub LinksTo : String → Mail → Type 0
  LinksTo url (confirmation c) =
      (c.to ≡ i.email) × (c.confirm_url ≡ url) × (c.valid_for ≡ 86400 * 10 ^ 9)
  LinksTo url (notice n) = ⊥
