-- ===== src/Firmware/Loader/Sequence.antt =====
-- firmware.rs: traces of the operations on the RPU, and the sequence of a load.
pub mod Load
pub mod Steps
use Prim.Native.Nat.{◌+◌, ℕ, zero, suc}
use embassy_zephyr_n_rf.Base.{
  ◌≡◌, ◌⊎◌, inl, inr, refl, sym, ap, ◌∙◌, List, [], ◌∷◌, ◌++◌, append_assoc, append-nil, Bool, true,
  false, ◌==◌, if◌then◌else◌, Outcome, ok, err, panic, Outcome-cases, Bool-cases,
}
use embassy_zephyr_n_rf.Base.Actions.{mapped, map_error, continue_with, Action, ◌>>=◌, ◌>>◌, pure}
use embassy_zephyr_n_rf.Base.Post.{Post-ok}
use embassy_zephyr_n_rf.Memory.Address.{Processor, RpuError}
use embassy_zephyr_n_rf.Firmware.Bundle.{
  FirmwareError, ImageKind, FirmwareImage, FirmwareBundle, image, parse_bundle,
}
use embassy_zephyr_n_rf.Firmware.Bundle.Images.{Found}
use embassy_zephyr_n_rf.Firmware.Bundle.Parse.{IsBundle, parse_bundle-IsBundle}
use embassy_zephyr_n_rf.Firmware.Trust.{TrustPolicy, verify_hash}
use embassy_zephyr_n_rf.Firmware.Loader.{
  LoadError, LoadStage, FirmwareReport, BootConfig, boot_config, destination, boot_signature,
  boot_vector_values, RpuPort, write_vectors, program_boot, poll_signature, wait_for_boot_signature,
  boot_processor, reset_processors, boot_processors, download_image, download_images, load,
  load_rest,
}

-- The operations that change the RPU.
pub data Operation : Type 0 where
  reset_operation : Processor → Operation
  write_operation : Processor → ℕ → List ℕ → Operation
  word_operation : Processor → ℕ → ℕ → Operation
  register_operation : ℕ → ℕ → Operation

-- The operations so far, and the number of delays.
pub record Trace : Type 0 where
  pub log : List Operation
  pub delays : ℕ

abbrev pub vector_operations : List ℕ → List ℕ → List Operation
vector_operations (address ∷ addresses) (value ∷ values) =
    Operation.register_operation address value ∷ vector_operations addresses values
vector_operations _ _ = []

-- The boot signature is cleared, the sleep register and the boot vectors are set, and the processor
-- runs.
abbrev pub boot_operations : Processor → BootConfig → List Operation
boot_operations processor config =
    (Operation.word_operation processor config.signature_address 0 ∷ [])
    ++ ((Operation.register_operation config.sleep_control config.patch_offset ∷ [])
        ++ (vector_operations config.vectors boot_vector_values
            ++ (Operation.register_operation config.run_register 1 ∷ [])))

-- The bytes of an image that was found.
abbrev pub image_bytes : {F : Type 0} → Outcome F FirmwareImage → List ℕ
image_bytes (ok found) = found.data_bytes
image_bytes (err e) = []
image_bytes panic = []

abbrev pub download_operations : FirmwareBundle → ImageKind → List Operation
download_operations bundle kind =
    Operation.write_operation (destination kind).0 (destination kind).1
      (image_bytes (image bundle kind))
    ∷ []

-- Both processors are reset, the four images are written to their places, and both are booted.
abbrev pub load_operations : FirmwareBundle → List Operation
load_operations bundle =
    ((Operation.reset_operation Processor.lmac ∷ [])
      ++ (Operation.reset_operation Processor.umac ∷ []))
    ++ ((download_operations bundle ImageKind.umac_primary
          ++ (download_operations bundle ImageKind.umac_secondary
              ++ (download_operations bundle ImageKind.lmac_primary
                  ++ download_operations bundle ImageKind.lmac_secondary)))
        ++ (((boot_operations Processor.lmac (boot_config Processor.lmac) ++ [])
              ++ (boot_operations Processor.umac (boot_config Processor.umac) ++ []))
            ++ []))

-- Some of the operations, from the first on, were carried out or tried.
abbrev pub Started : List Operation → Trace → Trace → Type 0
Started ops s s' =
    (done : List Operation) × (rest : List Operation) × (ops ≡ done ++ rest)
    × (s'.log ≡ s.log ++ done)

-- All of the operations when the action succeeds, and otherwise some, from the first on.
abbrev pub Performed : {F A : Type 0} → List Operation → Trace → Trace × Outcome F A → Type 0
Performed ops s (s', ok a) = s'.log ≡ s.log ++ ops
Performed ops s (s', err e) = Started ops s s'
Performed ops s (s', panic) = Started ops s s'

unfoldable pub Performs : {F A : Type 0} → List Operation → Action Trace F A → Type 0
Performs ops act = (s : Trace) → Performed ops s (act s)

-- What was started of the second part comes behind the whole first part.
pub append_behind :
    (xs ys : List Operation) (s s' s'' : Trace)
    → s'.log ≡ s.log ++ xs
    → Started ys s' s''
    → Started (xs ++ ys) s s''
append_behind xs ys s s' s'' first (done, rest, e, h) = (
  xs ++ done,
  rest,
  ap (λ zs. xs ++ zs) e ∙ sym (append_assoc xs done rest),
  h ∙ ap (λ zs. zs ++ done) first ∙ append_assoc s.log xs done,
)

pub append_before :
    (xs ys : List Operation) (s s' : Trace) → Started xs s s' → Started (xs ++ ys) s s'
append_before xs ys s s' (done, rest, e, h) =
    (done, rest ++ ys, ap (λ zs. zs ++ ys) e ∙ append_assoc done rest ys, h)

pub >>=-Performs :
    {F A B : Type 0} (xs ys : List Operation) (m : Action Trace F A) (k : A → Action Trace F B)
    → Performs xs m
    → ((a : A) → Performs ys (k a))
    → Performs (xs ++ ys) (m >>= k)
unfolding Performs
>>=-Performs {F} {A} {B} xs ys m k p q s = first (m s) (p s)
  where
    second :
        (s' : Trace) (r : Trace × Outcome F B)
        → s'.log ≡ s.log ++ xs
        → Performed ys s' r
        → Performed (xs ++ ys) s r
    second s' (s'', ok b) e h = h ∙ ap (λ zs. zs ++ ys) e ∙ append_assoc s.log xs ys
    second s' (s'', err x) e h = append_behind xs ys s s' s'' e h
    second s' (s'', panic) e h = append_behind xs ys s s' s'' e h

    first :
        (r : Trace × Outcome F A) → Performed xs s r → Performed (xs ++ ys) s (continue_with k r)
    first (s', ok a) h = second s' (k a s') h (q a s')
    first (s', err x) h = append_before xs ys s s' h
    first (s', panic) h = append_before xs ys s s' h

pub mapped-Performed :
    {F G A : Type 0} (ops : List Operation) (f : F → G) (s : Trace) (r : Trace × Outcome F A)
    → Performed ops s r
    → Performed ops s (mapped f r)
mapped-Performed ops f s (s', ok a) h = h
mapped-Performed ops f s (s', err e) h = h
mapped-Performed ops f s (s', panic) h = h

pub map_error-Performs :
    {F G A : Type 0} (ops : List Operation) (f : F → G) (act : Action Trace F A)
    → Performs ops act
    → Performs ops (map_error f act)
unfolding Performs
map_error-Performs ops f act p s = mapped-Performed ops f s (act s) (p s)

pub pure-Performs : (F A : Type 0) (a : A) → Performs [] (pure {S = Trace} {E = F} (ok a))
unfolding Performs
pure-Performs F A a s = sym (append-nil s.log)

pub if_Performed :
    {F A : Type 0} (b : Bool) (s : Trace) (x y : Trace × Outcome F A)
    → Performed [] s x
    → Performed [] s y
    → Performed [] s (if b then x else y)
if_Performed true s x y p q = p
if_Performed false s x y p q = q

-- A delay leaves the log.
pub same_log :
    {F A : Type 0} (s : Trace) (n : ℕ) (r : Trace × Outcome F A)
    → Performed [] (record { log = s.log; delays = n }) r
    → Performed [] s r
same_log s n (s', ok a) h = h
same_log s n (s', err e) h = h
same_log s n (s', panic) h = h

pub nothing : (ops : List Operation) (s s' : Trace) → s'.log ≡ s.log → Started ops s s'
nothing ops s s' e = ([], ops, refl, e ∙ sym (append-nil s.log))
