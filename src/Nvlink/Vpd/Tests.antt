-- ===== src/Nvlink/Vpd/Tests.antt =====
-- An image with a name, a role and bytes behind its end, and the theorems at it.
use pcilibs_rs.Prelude.{false, List, [], ◌∷◌, ◌≡◌, ◌≢◌, refl, any, ok, err}
use pcilibs_rs.Text.{codes}
use pcilibs_rs.Nvlink.Vpd.{vpd_sw_mng, out_of_fuel}
use pcilibs_rs.Nvlink.Vpd.Fuel.{vpd_sw_mng-ne-out_of_fuel}
use pcilibs_rs.Nvlink.Vpd.Grammar.{
  Resource, small, large, keyed, spell, spell_keywords, is_manager, vpd_sw_mng-spell,
}

abbrev switch_manager : List Resource
switch_manager =
    large 0x82 2 0 (codes "NV")
    ∷ small 0x09 (codes "x")
    ∷ keyed false 14 0 ((b'V', b'A', codes "SMDL=SW_MNG") ∷ [])
    ∷ []

vpd_sw_mng-spell_example :
    vpd_sw_mng (spell switch_manager (codes "junk")) ≡ ok (any is_manager switch_manager)
unfolding spell_keywords
vpd_sw_mng-spell_example =
    vpd_sw_mng-spell switch_manager (codes "junk")
      ((refl, refl, refl, refl), ((refl, refl, refl, refl), (refl, tt)))

vpd_sw_mng-ne-out_of_fuel_example : vpd_sw_mng (0x90 ∷ 4 ∷ 0 ∷ []) ≢ err out_of_fuel
vpd_sw_mng-ne-out_of_fuel_example = vpd_sw_mng-ne-out_of_fuel (0x90 ∷ 4 ∷ 0 ∷ [])
