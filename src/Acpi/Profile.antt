-- ===== src/Acpi/Profile.antt =====
-- The two lines that InitializeACPI logs once it has the FADT.
use system.Base.{ℕ, ◌+◌, List, [], ◌∷◌, ◌==◌, if◌then◌else◌, String, codes}
use system.Memory.{Memory, load8}

-- FADTStructure::PreferredPowerManagementProfile
abbrev pub preferred_profile : Memory → (fadt : ℕ) → ℕ
preferred_profile m fadt = load8 m (fadt + 45)

-- The switch over the profile.
unfoldable pub profile_line : (profile : ℕ) → String
profile_line profile =
    if profile == 1
    then "[ACPI] You are using a desktop\n"
    else (if profile == 2
        then "[ACPI] You are using a laptop\n"
        else (if profile == 3
            then "[ACPI] You are using a workstation\n"
            else (if profile == 4
                then "[ACPI] You are using a server\n"
                else (if profile == 5
                    then "[ACPI] You are using a SOHO server\n"
                    else (if profile == 6
                        then "[ACPI] You are using an appliance PC\n"
                        else (if profile == 7
                            then "[ACPI] You are using a high-performance server\n"
                            else (if profile == 8
                                then "[ACPI] You are using a tablet\n"
                                else "[ACPI] Unable to detect the device power management profile.\n")))))))

unfoldable pub fadt_lines : Memory → (fadt : ℕ) → List (List ℕ)
unfolding profile_line
fadt_lines m fadt =
    codes "[ACPI] Parsing the Fixed ACPI Description table (FADT)\n"
    ∷ codes (profile_line (preferred_profile m fadt))
    ∷ []
