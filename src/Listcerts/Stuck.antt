-- ===== src/Listcerts/Stuck.antt =====
-- A signature list of size 0 in listcerts/listcerts.c.
use uefi_utilities.Base.{
  ℕ, zero, suc, ◌+◌, ◌-◌, ◌<◌, ◌≡◌, ◌≢◌, refl, arith, true, false, ◌&&◌, ltb, leb, ◌==◌,
}
use uefi_utilities.Listcerts.{
  SignatureType, out_of_fuel, print_loop, print_list, cert_count, type_of, first_cert,
  signature_list_size, signature_size,
}

module _ (byte : ℕ → ℕ) (compare_guid : ℕ → SignatureType → ℕ) (decoder : ℕ → ℕ → ℕ) where
  -- On a signature list with SignatureListSize 0 and a SignatureSize that is not 0, with data left,
  -- the loop of `PrintCerts` never ends, whatever the fuel.
  pub print_loop-stuck :
      (fuel list data_size status : ℕ)
      → signature_list_size byte compare_guid decoder list ≡ 0
      → signature_size byte compare_guid decoder list ≢ 0
      → 0 < data_size
      → print_loop byte compare_guid decoder fuel list data_size status ≡ out_of_fuel
  unfolding print_loop
  print_loop-stuck zero list data_size status empty size left = refl
  print_loop-stuck (suc fuel) list data_size status empty size left =
      let status' =
        (print_list byte compare_guid decoder (cert_count byte compare_guid decoder list)
          (type_of byte compare_guid decoder list) (signature_size byte compare_guid decoder list)
          (first_cert byte compare_guid decoder list) status).1 in
      let rest = print_loop-stuck fuel list data_size status' empty size left in
      let here : list + signature_list_size byte compare_guid decoder list ≡ list = omega arith in
      let same : data_size - signature_list_size byte compare_guid decoder list ≡ data_size =
        omega arith in
      let on : (ltb 0 data_size
            && leb (signature_list_size byte compare_guid decoder list) data_size)
          ≡ true =
        ground arith in
      let divides : (signature_size byte compare_guid decoder list == 0) ≡ false = ground arith in
      rw (on, divides, here, same, rest) refl
