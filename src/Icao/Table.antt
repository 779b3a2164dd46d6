-- ===== src/Icao/Table.antt =====
-- The table of src/decode/icao_country.cpp, in the order of the source.
use inmar_scope.Prelude.{ℕ, List, [], ◌∷◌, Text, codes}
use Prim.Native.String.{String}

-- `Range`: the addresses from `lo` to `hi`, both included, and their country.
pub record Range : Type 0 where
  pub lo : ℕ
  pub hi : ℕ
  pub cc : Text

abbrev pub range : ℕ → ℕ → String → Range
range lo hi cc = record { lo = lo; hi = hi; cc = codes cc }

-- `kTable`
unfoldable pub table : List Range
table =
    range 0x004000 0x0043ff "ZW"
    ∷ range 0x008000 0x00ffff "ZA"
    ∷ range 0x010000 0x017fff "EG"
    ∷ range 0x020000 0x02ffff "MA"
    ∷ range 0x030000 0x03ffff "LY"
    ∷ range 0x040000 0x043fff "AF"
    ∷ range 0x044000 0x047fff "DZ"
    ∷ range 0x048000 0x04bfff "AO"
    ∷ range 0x04c000 0x04cfff "BF"
    ∷ range 0x050000 0x05ffff "TN"
    ∷ range 0x060000 0x06ffff "SD"
    ∷ range 0x070000 0x07ffff "ET"
    ∷ range 0x080000 0x08ffff "GH"
    ∷ range 0x090000 0x090fff "LR"
    ∷ range 0x094000 0x097fff "NG"
    ∷ range 0x098000 0x09ffff "SN"
    ∷ range 0x0a0000 0x0a3fff "MR"
    ∷ range 0x0a4000 0x0a7fff "CV"
    ∷ range 0x0e0000 0x0e3fff "TN"
    ∷ range 0x0e4000 0x0e7fff "DZ"
    ∷ range 0x0e8000 0x0effff "AO"
    ∷ range 0x100000 0x1fffff "RU"
    ∷ range 0x180000 0x18ffff "UA"
    ∷ range 0x190000 0x19ffff "KZ"
    ∷ range 0x1a0000 0x1affff "BY"
    ∷ range 0x1b0000 0x1bffff "KG"
    ∷ range 0x1c0000 0x1cffff "UZ"
    ∷ range 0x1d0000 0x1dffff "AZ"
    ∷ range 0x1e0000 0x1effff "MD"
    ∷ range 0x200000 0x2fffff "RU"
    ∷ range 0x300000 0x3fffff "FR"
    ∷ range 0x340000 0x34ffff "ES"
    ∷ range 0x350000 0x35ffff "IT"
    ∷ range 0x380000 0x38ffff "PL"
    ∷ range 0x390000 0x39ffff "AT"
    ∷ range 0x3a0000 0x3affff "BE"
    ∷ range 0x3b0000 0x3bffff "CH"
    ∷ range 0x3c0000 0x3cffff "CZ"
    ∷ range 0x3d0000 0x3dffff "DE"
    ∷ range 0x3e0000 0x3effff "DK"
    ∷ range 0x3f0000 0x3fffff "GR"
    ∷ range 0x400000 0x407fff "GB"
    ∷ range 0x408000 0x40ffff "IE"
    ∷ range 0x420000 0x42ffff "DE"
    ∷ range 0x440000 0x44ffff "AT"
    ∷ range 0x450000 0x45ffff "DK"
    ∷ range 0x460000 0x46ffff "SE"
    ∷ range 0x470000 0x47ffff "NO"
    ∷ range 0x480000 0x48ffff "FI"
    ∷ range 0x490000 0x49ffff "PT"
    ∷ range 0x4a0000 0x4affff "GR"
    ∷ range 0x4b0000 0x4bffff "TR"
    ∷ range 0x4c0000 0x4cffff "IE"
    ∷ range 0x4d0000 0x4dffff "LU"
    ∷ range 0x500000 0x5fffff "FR"
    ∷ range 0x600000 0x6fffff "GB"
    ∷ range 0x700000 0x70ffff "CN"
    ∷ range 0x7a8000 0x7bffff "CN"
    ∷ range 0x780000 0x79ffff "CN"
    ∷ range 0x7c0000 0x7fffff "AU"
    ∷ range 0x710000 0x71ffff "TH"
    ∷ range 0x720000 0x72ffff "MY"
    ∷ range 0x730000 0x73ffff "SG"
    ∷ range 0x740000 0x74ffff "IN"
    ∷ range 0x750000 0x75ffff "PK"
    ∷ range 0x760000 0x76ffff "BD"
    ∷ range 0x770000 0x77ffff "LK"
    ∷ range 0x7a0000 0x7a3fff "VN"
    ∷ range 0x7a4000 0x7a7fff "KH"
    ∷ range 0x7e0000 0x7e3fff "MN"
    ∷ range 0x7e4000 0x7e7fff "KP"
    ∷ range 0x800000 0x80ffff "JP"
    ∷ range 0x810000 0x81ffff "KR"
    ∷ range 0x820000 0x82ffff "PH"
    ∷ range 0x83ffff 0x83ffff "HK"
    ∷ range 0x838000 0x83ffff "HK"
    ∷ range 0x840000 0x87ffff "JP"
    ∷ range 0x880000 0x88ffff "ID"
    ∷ range 0x899000 0x899fff "TW"
    ∷ range 0x8a0000 0x8affff "MY"
    ∷ range 0x900000 0x9fffff "MX"
    ∷ range 0xa00000 0xafffff "US"
    ∷ range 0xb00000 0xbfffff "CA"
    ∷ range 0xc00000 0xc0ffff "BR"
    ∷ range 0xc10000 0xc1ffff "AR"
    ∷ range 0xc20000 0xc2ffff "CL"
    ∷ range 0xc30000 0xc3ffff "CO"
    ∷ range 0xc40000 0xc4ffff "VE"
    ∷ range 0xc50000 0xc5ffff "PE"
    ∷ range 0xc60000 0xc6ffff "EC"
    ∷ range 0xc70000 0xc7ffff "BO"
    ∷ range 0xc80000 0xc80fff "NZ"
    ∷ range 0xc81000 0xc81fff "FJ"
    ∷ range 0xc82000 0xc8ffff "PY"
    ∷ range 0xc90000 0xc9ffff "UY"
    ∷ range 0xca0000 0xcaffff "GT"
    ∷ range 0xcb0000 0xcbffff "HN"
    ∷ range 0xcc0000 0xccffff "PA"
    ∷ range 0xd00000 0xd0ffff "KR"
    ∷ range 0xd10000 0xd1ffff "KR"
    ∷ range 0xd20000 0xd2ffff "KW"
    ∷ range 0xd30000 0xd3ffff "SA"
    ∷ range 0xd40000 0xd4ffff "AE"
    ∷ range 0xd50000 0xd5ffff "QA"
    ∷ range 0xd60000 0xd6ffff "BH"
    ∷ range 0xd70000 0xd7ffff "OM"
    ∷ range 0xd80000 0xd8ffff "JO"
    ∷ range 0xd90000 0xd9ffff "LB"
    ∷ range 0xda0000 0xdaffff "IQ"
    ∷ range 0xdb0000 0xdbffff "YE"
    ∷ range 0xdc0000 0xdcffff "IR"
    ∷ range 0xdd0000 0xddffff "IL"
    ∷ range 0xde0000 0xdeffff "CY"
    ∷ range 0xdf0000 0xdfffff "SY"
    ∷ range 0xe00000 0xe0ffff "BR"
    ∷ range 0xe10000 0xe1ffff "NO"
    ∷ range 0xe20000 0xe2ffff "IS"
    ∷ range 0xe30000 0xe3ffff "EE"
    ∷ range 0xe40000 0xe4ffff "LV"
    ∷ range 0xe50000 0xe5ffff "LT"
    ∷ range 0xe60000 0xe6ffff "RO"
    ∷ range 0xe70000 0xe7ffff "BG"
    ∷ range 0xe80000 0xe8ffff "HR"
    ∷ range 0xe90000 0xe9ffff "SI"
    ∷ range 0xea0000 0xeaffff "RS"
    ∷ range 0xeb0000 0xebffff "SK"
    ∷ range 0xec0000 0xecffff "HU"
    ∷ range 0xed0000 0xedffff "BA"
    ∷ range 0xee0000 0xeeffff "MK"
    ∷ range 0xef0000 0xefffff "ME"
    ∷ range 0xf00000 0xf0ffff "PT"
    ∷ range 0xf10000 0xf1ffff "SE"
    ∷ range 0xf20000 0xf2ffff "NO"
    ∷ range 0xf30000 0xf3ffff "FI"
    ∷ range 0xf40000 0xf4ffff "DK"
    ∷ range 0xf50000 0xf5ffff "NL"
    ∷ range 0xf60000 0xf6ffff "BE"
    ∷ range 0xf80000 0xf8ffff "MX"
    ∷ range 0xfa0000 0xfaffff "BR"
    ∷ range 0xfb0000 0xfbffff "PE"
    ∷ range 0xfc0000 0xfcffff "US"
    ∷ range 0xfd0000 0xfdffff "US"
    ∷ range 0xfe0000 0xfeffff "RU"
    ∷ range 0xff0000 0xffffff "ZZ"
    ∷ []
