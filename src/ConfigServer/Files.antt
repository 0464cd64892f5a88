-- ===== src/ConfigServer/Files.antt =====
-- Which file each part of the configuration library uses once the server has started.
use demo_iot_app_hw.Base.{
  ℕ, suc, ◌≡◌, ◌≢◌, ◌≤◌, ◌⊎◌, inl, inr, refl, ◌∙◌, Option, some, List, length, take_all,
  if◌then◌else◌, ℤ, ◌==ℤ◌, Bool-cases, arith,
}
use demo_iot_app_hw.Config.Names.{
  initialize_name, IsCString, c_string, c_string-IsCString, initialize_name_lem,
}
use demo_iot_app_hw.Platform.Os.{os_success}
use demo_iot_app_hw.Platform.Files.{FileSystem, Backends}
use demo_iot_app_hw.ConfigServer.{
  parameter_file, domain_file, string_file, blob_file, open_backend, initialize_file_backends,
  init_system_config_backend,
}

-- The files for parameters, domains, strings and blobs.
pub record Files : Type 0 where
  pub parameters : List ℕ
  pub domains : List ℕ
  pub strings : List ℕ
  pub blobs : List ℕ

abbrev pub server_files : Files
server_files = record {
  parameters = parameter_file;
  domains = domain_file;
  strings = string_file;
  blobs = blob_file;
}

parameter_text : IsCString parameter_file
parameter_text = c_string-IsCString parameter_file refl

domain_text : IsCString domain_file
domain_text = c_string-IsCString domain_file refl

string_text : IsCString string_file
string_text = c_string-IsCString string_file refl

blob_text : IsCString blob_file
blob_text = c_string-IsCString blob_file refl

-- The number of failures behind a call with this code.
abbrev pub counted : ℤ → ℕ → ℕ
counted code n = if code ==ℤ os_success then n else suc n

-- A backend stands for the file whose name is the string in the buffer. `using w` are the files that the
-- library uses, once it has been initialised with success; nothing else changes that. `failures w` is
-- how many of the calls so far have failed.
pub record IsBacked {W F B : Type 0} (fs : FileSystem W F) (lib : Backends W F B) : Type 0 where
  pub file_of : B → List ℕ
  pub using : W → Option Files
  pub failures : W → ℕ
  pub failures-init : (w : W) → failures (fs.fs_init w).2 ≡ counted (fs.fs_init w).0 (failures w)
  pub failures-mount :
      (h : F) (w : W) → failures (fs.fs_mount h w).1 ≡ counted (fs.fs_mount h w).0 (failures w)
  pub failures-backend :
      (name : List ℕ) (h : F) (w : W)
      → failures (lib.initialize_file_backend name h w).2
        ≡ counted (lib.initialize_file_backend name h w).0 (failures w)
  pub failures-lib_init :
      (p d s b : B) (w : W)
      → failures (lib.lib_init p d s b w).1 ≡ counted (lib.lib_init p d s b w).0 (failures w)
  pub using-init : (w : W) → using (fs.fs_init w).2 ≡ using w
  pub using-mount : (h : F) (w : W) → using (fs.fs_mount h w).1 ≡ using w
  pub using-backend :
      (name : List ℕ) (h : F) (w : W) → using (lib.initialize_file_backend name h w).2 ≡ using w
  pub opens :
      (name : List ℕ) (h : F) (w : W)
      → (lib.initialize_file_backend name h w).0 ≡ os_success
      → file_of (lib.initialize_file_backend name h w).1 ≡ c_string name
  pub starts :
      (p d s b : B) (w : W)
      → (lib.lib_init p d s b w).0 ≡ os_success
      → using (lib.lib_init p d s b w).1
        ≡ some (record {
          parameters = file_of p;
          domains = file_of d;
          strings = file_of s;
          blobs = file_of b;
        })
  pub starts_not :
      (p d s b : B) (w : W)
      → (lib.lib_init p d s b w).0 ≢ os_success
      → using (lib.lib_init p d s b w).1 ≡ using w

module _ {W F B : Type 0} (fs : FileSystem W F) (lib : Backends W F B) (law : IsBacked fs lib) where
  -- A file name that fits is the name of the backend.
  open_backend-file :
      (n : ℕ) (file : List ℕ) (h : F) (w : W)
      → lib.max_file_name_size ≡ suc n
      → length file ≤ n
      → IsCString file
      → (open_backend fs lib file h w).0 ≡ os_success
      → law.file_of (open_backend fs lib file h w).1 ≡ file
  unfolding open_backend
  open_backend-file n file h w size fits text good =
      law.opens (initialize_name lib.max_file_name_size file) h w good
      ∙ rw size ((initialize_name_lem n file text).1)
      ∙ take_all n file fits

  -- How a start ends: with no call failed and the server's files in use, or with an error, at the first
  -- call that failed, and the library as it was.
  abbrev pub Started : W → ℤ → W → Type 0
  Started w err w' =
      ((err ≡ os_success) × (law.using w' ≡ some server_files) × (law.failures w' ≡ law.failures w))
      ⊎ ((err ≢ os_success)
          × (law.using w' ≡ law.using w)
          × (law.failures w' ≡ suc (law.failures w)))

  -- Nothing has happened that would have to be noticed.
  abbrev Quiet : W → W → Type 0
  Quiet w w' = (law.using w' ≡ law.using w) × (law.failures w' ≡ law.failures w)

  -- A call with this code leads from `w` to `w'`.
  abbrev Called : W → W → ℤ → Type 0
  Called w w' err = (law.using w' ≡ law.using w) × (law.failures w' ≡ counted err (law.failures w))

  Quiet-Called : (w w1 w2 : W) (err : ℤ) → Quiet w w1 → Called w1 w2 err → Called w w2 err
  Quiet-Called w w1 w2 err (kept, few) (kept', count) = (kept' ∙ kept, rw few at count)

  Called-Quiet : (w w' : W) (err : ℤ) → Called w w' err → err ≡ os_success → Quiet w w'
  Called-Quiet w w' err (kept, count) good = (kept, rw good at count)

  -- A call that fails ends the start there; otherwise the rest of the start decides.
  guard :
      (w w' : W) (err : ℤ) (rest : ℤ × W)
      → Called w w' err
      → (Quiet w w' → err ≡ os_success → Started w rest.0 rest.1)
      → Started w
          (if err ==ℤ os_success then rest else (err, w')).0
          (if err ==ℤ os_success then rest else (err, w')).1
  guard w w' err rest called next = elim (Bool-cases (err ==ℤ os_success)) [
    | inl good ↦
        let success : err ≡ os_success = ground arith in
        rw good (next (Called-Quiet w w' err called success) success)
    | inr failed ↦ rw failed (inr (ground arith, called.0, rw failed at called.1))
  ]

  open_backend-Called :
      (file : List ℕ) (h : F) (w : W)
      → Called w (open_backend fs lib file h w).2 (open_backend fs lib file h w).0
  unfolding open_backend
  open_backend-Called file h w =
      let name = initialize_name lib.max_file_name_size file in
      (law.using-backend name h w, law.failures-backend name h w)

  lib_init-using :
      (w : W) (p d s b : B) (w' : W)
      → Quiet w w'
      → law.file_of p ≡ parameter_file
      → law.file_of d ≡ domain_file
      → law.file_of s ≡ string_file
      → law.file_of b ≡ blob_file
      → Started w (lib.lib_init p d s b w').0 (lib.lib_init p d s b w').1
  lib_init-using w p d s b w' (kept, few) is_p is_d is_s is_b =
      let count = law.failures-lib_init p d s b w' in
      elim (Bool-cases ((lib.lib_init p d s b w').0 ==ℤ os_success)) [
        | inl good ↦
            let ends : (lib.lib_init p d s b w').0 ≡ os_success = ground arith in
            inl (
              ends,
              law.starts p d s b w' ends ∙ rw (is_p, is_d, is_s, is_b) refl,
              rw (good, few) at count,
            )
        | inr failed ↦
            let ends : (lib.lib_init p d s b w').0 ≢ os_success = ground arith in
            inr (ends, law.starts_not p d s b w' ends ∙ kept, rw (failed, few) at count)
      ]

  initialize_file_backends-using :
      (n : ℕ) (h : F) (w : W)
      → lib.max_file_name_size ≡ suc n
      → 10 ≤ n
      → Started w (initialize_file_backends fs lib h w).0 (initialize_file_backends fs lib h w).1
  unfolding initialize_file_backends
  initialize_file_backends-using n h w size fits =
      let (err1, domains, w1) = open_backend fs lib domain_file h w in
      let (err2, parameters, w2) = open_backend fs lib parameter_file h w1 in
      let (err3, strings, w3) = open_backend fs lib string_file h w2 in
      let (err4, blobs, w4) = open_backend fs lib blob_file h w3 in
      guard w w1 err1 _ (open_backend-Called domain_file h w) (λ quiet1 good1.
        guard w w2 err2 _
          (Quiet-Called w w1 w2 err2 quiet1 (open_backend-Called parameter_file h w1))
          (λ quiet2 good2.
            guard w w3 err3 _
              (Quiet-Called w w2 w3 err3 quiet2 (open_backend-Called string_file h w2))
              (λ quiet3 good3.
                guard w w4 err4 _
                  (Quiet-Called w w3 w4 err4 quiet3 (open_backend-Called blob_file h w3))
                  (λ quiet4 good4.
                    lib_init-using w parameters domains strings blobs w4 quiet4
                      (open_backend-file n parameter_file h w1 size (omega arith) parameter_text
                        good2)
                      (open_backend-file n domain_file h w size (omega arith) domain_text good1)
                      (open_backend-file n string_file h w2 size (omega arith) string_text good3)
                      (open_backend-file n blob_file h w3 size (omega arith) blob_text good4)))))

  -- The start of the configuration server succeeds or fails as a whole. Where it returns OS_SUCCESS,
  -- none of its seven calls has failed, and parameters, domains, strings and blobs are each read from
  -- the file of that name; otherwise just one of them has failed, it returns an error, and the library
  -- is as it was. A file name buffer must hold ten characters and the terminator.
  pub init_system_config_backend-using :
      (n : ℕ) (w : W)
      → lib.max_file_name_size ≡ suc n
      → 10 ≤ n
      → Started w (init_system_config_backend fs lib w).0 (init_system_config_backend fs lib w).1
  unfolding init_system_config_backend
  init_system_config_backend-using n w size fits =
      let (err, h, w1) = fs.fs_init w in
      let (err', w2) = fs.fs_mount h w1 in
      guard w w1 err _ (law.using-init w, law.failures-init w)
        (λ quiet1 good.
          guard w w2 err' _
            (Quiet-Called w w1 w2 err' quiet1 (law.using-mount h w1, law.failures-mount h w1))
            (λ (kept2, few2) good'. elim (initialize_file_backends-using n h w2 size fits) [
              | inl (started, files, few) ↦ inl (started, files, few ∙ few2)
              | inr (failed, kept, count) ↦ inr (failed, kept ∙ kept2, rw few2 at count)
            ]))
