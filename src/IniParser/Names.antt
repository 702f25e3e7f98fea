-- ===== src/IniParser/Names.antt =====
-- IniParser.cpp, `ParseIni`: the settings that a file has to have.
use gcnsim_awb.Prelude.{ℕ, ◌≡◌, refl, true, List, [], ◌∷◌, All, arith}
use gcnsim_awb.Text.{codes, Result, ok, err, ◌>>=◌, stoull, stoi}
use gcnsim_awb.IniParser.{
  Table, contain, get, get_string, get_int, get_uint64, get_float, Ini, parse_ini,
}

abbrev pub required : List (List ℕ)
required =
    codes "GlobalBufferSize"
    ∷ codes "XBufferSize"
    ∷ codes "TotalNumOfAcc"
    ∷ codes "TotalNumOfDRAM"
    ∷ codes "CacheLineByte"
    ∷ codes "CacheLineCount"
    ∷ codes "XStartAddress"
    ∷ codes "ARowStartAddress"
    ∷ codes "AColStartAddress"
    ∷ codes "WeightStartAddress"
    ∷ codes "XWResultStartAddress"
    ∷ codes "AXWResultStartAddress"
    ∷ codes "SystolicDimension"
    ∷ codes "CacheReplacementAlgo"
    ∷ codes "CSRDivisionType"
    ∷ codes "MechanismType"
    ∷ codes "UnitWeightReadBlock"
    ∷ codes "BloomFilterNum"
    ∷ codes "BloomFilterRatio"
    ∷ codes "BloomFilterOverlap"
    ∷ codes "CacheWayN"
    ∷ codes "MemoryType"
    ∷ []

-- Inversion of a step that may throw.
ok-from {ℓ κ} :
    {A : Type ℓ} {B : Type κ} (r : Result A) (f : A → Result B) {b : B}
    → (r >>= f) ≡ ok b
    → (a : A) × (r ≡ ok a) × (f a ≡ ok b)
ok-from (ok a) f e = (a, refl, e)
ok-from (err x) f e = absurd (cc)

get-contain : (name : List ℕ) (t : Table) {v : List ℕ} → get name t ≡ ok v → contain name t ≡ true
unfolding contain
get-contain name t e = ground arith

-- Each reader of a setting first takes its text.
reads-contain {ℓ} :
    {A : Type ℓ} (name : List ℕ) (t : Table) (f : List ℕ → Result A) {a : A}
    → (get name t >>= f) ≡ ok a
    → contain name t ≡ true
reads-contain name t f e = let (v, h, _) = ok-from (get name t) f e in get-contain name t h

-- A file that lacks any of the settings is refused: when `ParseIni` returns, the table has all 22.
pub parse_ini-contain :
    {F : Type 0} (stof : List ℕ → Result F) (t : Table) (i : Ini F)
    → parse_ini stof t ≡ ok i
    → All (λ name. contain name t ≡ true) required
unfolding parse_ini get_uint64 get_int get_float get_string
parse_ini-contain stof t i e =
    let (_, h0, e0) = ok-from (get_uint64 (codes "GlobalBufferSize") t) _ e in
    let (_, h1, e1) = ok-from (get_uint64 (codes "XBufferSize") t) _ e0 in
    let (_, h2, e2) = ok-from (get_uint64 (codes "TotalNumOfAcc") t) _ e1 in
    let (_, h3, e3) = ok-from (get_int (codes "TotalNumOfDRAM") t) _ e2 in
    let (_, h4, e4) = ok-from (get_uint64 (codes "CacheLineByte") t) _ e3 in
    let (_, h5, e5) = ok-from (get_uint64 (codes "CacheLineCount") t) _ e4 in
    let (_, h6, e6) = ok-from (get_uint64 (codes "XStartAddress") t) _ e5 in
    let (_, h7, e7) = ok-from (get_uint64 (codes "ARowStartAddress") t) _ e6 in
    let (_, h8, e8) = ok-from (get_uint64 (codes "AColStartAddress") t) _ e7 in
    let (_, h9, e9) = ok-from (get_uint64 (codes "WeightStartAddress") t) _ e8 in
    let (_, h10, e10) = ok-from (get_uint64 (codes "XWResultStartAddress") t) _ e9 in
    let (_, h11, e11) = ok-from (get_uint64 (codes "AXWResultStartAddress") t) _ e10 in
    let (_, h12, e12) = ok-from (get_int (codes "SystolicDimension") t) _ e11 in
    let (_, h13, e13) = ok-from (get_uint64 (codes "CacheReplacementAlgo") t) _ e12 in
    let (_, h14, e14) = ok-from (get_int (codes "CSRDivisionType") t) _ e13 in
    let (_, h15, e15) = ok-from (get_int (codes "MechanismType") t) _ e14 in
    let (_, h16, e16) = ok-from (get_int (codes "UnitWeightReadBlock") t) _ e15 in
    let (_, h17, e17) = ok-from (get_uint64 (codes "BloomFilterNum") t) _ e16 in
    let (_, h18, e18) = ok-from (get_float stof (codes "BloomFilterRatio") t) _ e17 in
    let (_, h19, e19) = ok-from (get_uint64 (codes "BloomFilterOverlap") t) _ e18 in
    let (_, h20, e20) = ok-from (get_uint64 (codes "CacheWayN") t) _ e19 in
    let (_, h21, e21) = ok-from (get_string (codes "MemoryType") t) _ e20 in
    (
      reads-contain (codes "GlobalBufferSize") t stoull h0,
      (
        reads-contain (codes "XBufferSize") t stoull h1,
        (
          reads-contain (codes "TotalNumOfAcc") t stoull h2,
          (
            reads-contain (codes "TotalNumOfDRAM") t stoi h3,
            (
              reads-contain (codes "CacheLineByte") t stoull h4,
              (
                reads-contain (codes "CacheLineCount") t stoull h5,
                (
                  reads-contain (codes "XStartAddress") t stoull h6,
                  (
                    reads-contain (codes "ARowStartAddress") t stoull h7,
                    (
                      reads-contain (codes "AColStartAddress") t stoull h8,
                      (
                        reads-contain (codes "WeightStartAddress") t stoull h9,
                        (
                          reads-contain (codes "XWResultStartAddress") t stoull h10,
                          (
                            reads-contain (codes "AXWResultStartAddress") t stoull h11,
                            (
                              reads-contain (codes "SystolicDimension") t stoi h12,
                              (
                                reads-contain (codes "CacheReplacementAlgo") t stoull h13,
                                (
                                  reads-contain (codes "CSRDivisionType") t stoi h14,
                                  (
                                    reads-contain (codes "MechanismType") t stoi h15,
                                    (
                                      reads-contain (codes "UnitWeightReadBlock") t stoi h16,
                                      (
                                        reads-contain (codes "BloomFilterNum") t stoull h17,
                                        (
                                          reads-contain (codes "BloomFilterRatio") t stof h18,
                                          (
                                            reads-contain (codes "BloomFilterOverlap") t stoull h19,
                                            (
                                              reads-contain (codes "CacheWayN") t stoull h20,
                                              (reads-contain (codes "MemoryType") t _ h21, tt),
                                            ),
                                          ),
                                        ),
                                      ),
                                    ),
                                  ),
                                ),
                              ),
                            ),
                          ),
                        ),
                      ),
                    ),
                  ),
                ),
              ),
            ),
          ),
        ),
      ),
    )
