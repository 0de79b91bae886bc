-- ===== src/Prelude/Esp.antt =====
-- The `esp_err_t` codes that the modelled functions return.
use mathlib.Core.Bool.{Bool, true, false}
use mathlib.Core.Path.{◌≡◌, refl}

pub data EspErr : Type 0 where
  ok fail no_mem invalid_arg invalid_state invalid_size not_found timeout invalid_crc : EspErr
  invalid_response : EspErr

abbrev pub is_ok : EspErr → Bool
is_ok ok = true
is_ok _ = false

pub ok_of-is_ok : (e : EspErr) → is_ok e ≡ true → e ≡ ok
ok_of-is_ok ok h = refl
ok_of-is_ok fail h = absurd (cc h)
ok_of-is_ok no_mem h = absurd (cc h)
ok_of-is_ok invalid_arg h = absurd (cc h)
ok_of-is_ok invalid_state h = absurd (cc h)
ok_of-is_ok invalid_size h = absurd (cc h)
ok_of-is_ok not_found h = absurd (cc h)
ok_of-is_ok timeout h = absurd (cc h)
ok_of-is_ok invalid_crc h = absurd (cc h)
ok_of-is_ok invalid_response h = absurd (cc h)

-- Work that returns early with a code.
pub data Attempt {ℓ} (A : Type ℓ) : Type ℓ where
  done : A → Attempt A
  failed : EspErr → Attempt A

infixl 5 ◌>>=◌ ◌>>◌
abbrev pub ◌>>=◌ {ℓ κ} : {A : Type ℓ} {B : Type κ} → Attempt A → (A → Attempt B) → Attempt B
done a >>= f = f a
failed e >>= f = failed e

abbrev pub ◌>>◌ {ℓ} : {B : Type ℓ} → Attempt (Unit {0}) → Attempt B → Attempt B
m >> k = m >>= λ _. k

-- `if (wrong) return e;`
abbrev pub refuse : Bool → EspErr → Attempt (Unit {0})
refuse true e = failed e
refuse false e = done tt

pub refuse-eq_done :
    (wrong : Bool) (e : EspErr) {u : Unit {0}} → refuse wrong e ≡ done u → wrong ≡ false
refuse-eq_done true e h = absurd (cc h)
refuse-eq_done false e h = refl

pub >>=-eq_done {ℓ κ} :
    {A : Type ℓ} {B : Type κ} (m : Attempt A) (f : A → Attempt B) {b : B}
    → (m >>= f) ≡ done b
    → (a : A) × (m ≡ done a) × (f a ≡ done b)
>>=-eq_done (done a) f h = (a, refl, h)
>>=-eq_done (failed e) f h = absurd (cc h)
