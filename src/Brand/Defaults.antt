-- ===== src/Brand/Defaults.antt =====
-- `DEFAULT_BRAND_CONFIG` of frontend/T-010-brand-customization/src/brand/default-config.ts.
use lite_nova.Prelude.{true, String, List, [], ◌∷◌}
use lite_nova.Prelude.Int.{pos}
use lite_nova.Brand.Merge.{Value, flag, number, text, object, Fields, end, field}

-- An object literal.
unfoldable pub fields : List (String × Value) → Fields
fields [] = end
fields ((name, v) ∷ rest) = field name v (fields rest)

abbrev pub texts : List (String × String) → Fields
texts [] = end
texts ((name, s) ∷ rest) = field name (text s) (texts rest)

unfoldable pub default_brand_config : Fields
unfolding fields
default_brand_config = fields (
    ("meta", object (texts (("id", "default") ∷ ("version", "1.0.0") ∷ [])))
    ∷ (
      "color",
      object (
          fields (
            (
              "colors",
              object (
                  texts (
                    ("primary", "#3b82f6")
                    ∷ ("secondary", "#8b5cf6")
                    ∷ ("accent", "#f59e0b")
                    ∷ ("success", "#22c55e")
                    ∷ ("warning", "#f97316")
                    ∷ ("danger", "#ef4444")
                    ∷ ("info", "#06b6d4")
                    ∷ ("neutral", "#6b7280")
                    ∷ [])),
            )
            ∷ (
              "light",
              object (
                  texts (
                    ("background", "#ffffff")
                    ∷ ("surface", "#f9fafb")
                    ∷ ("textPrimary", "#111827")
                    ∷ ("textSecondary", "#6b7280")
                    ∷ ("textDisabled", "#d1d5db")
                    ∷ ("border", "#e5e7eb")
                    ∷ ("divider", "#f3f4f6")
                    ∷ ("overlay", "rgba(0, 0, 0, 0.5)")
                    ∷ [])),
            )
            ∷ (
              "dark",
              object (
                  texts (
                    ("background", "#0f172a")
                    ∷ ("surface", "#1e293b")
                    ∷ ("textPrimary", "#f1f5f9")
                    ∷ ("textSecondary", "#94a3b8")
                    ∷ ("textDisabled", "#475569")
                    ∷ ("border", "#334155")
                    ∷ ("divider", "#1e293b")
                    ∷ ("overlay", "rgba(0, 0, 0, 0.7)")
                    ∷ [])),
            )
            ∷ ("borderRadius", number (pos 8))
            ∷ ("generatePalettes", flag true)
            ∷ [])),
    )
    ∷ (
      "logo",
      object (
          fields (
            (
              "full",
              object (texts (("src", "/logo.svg") ∷ ("type", "url") ∷ ("alt", "Brand Logo") ∷ [])),
            )
            ∷ (
              "icon",
              object (texts (("src", "/icon.svg") ∷ ("type", "url") ∷ ("alt", "Brand Icon") ∷ [])),
            )
            ∷ [])),
    )
    ∷ (
      "text",
      object (
          fields (
            ("brandName", text "Lite999")
            ∷ ("slogan", text "Lightweight Solutions, Infinite Possibilities")
            ∷ ("copyright", text "© {year} {brandName}. All rights reserved.")
            ∷ ("appName", text "Lite999 Platform")
            ∷ ("appDescription", text "A modern, configurable web platform.")
            ∷ (
              "texts",
              object (
                  fields (
                    (
                      "nav",
                      object (
                          texts
                            (("home", "Home") ∷ ("about", "About") ∷ ("contact", "Contact") ∷ [])),
                    )
                    ∷ (
                      "footer",
                      object (
                          texts (
                            ("copyright", "© {year} {brandName}. All rights reserved.")
                            ∷ ("terms", "Terms of Service")
                            ∷ ("privacy", "Privacy Policy")
                            ∷ [])),
                    )
                    ∷ (
                      "auth",
                      object (
                          texts (
                            ("login", "Sign In")
                            ∷ ("logout", "Sign Out")
                            ∷ ("register", "Create Account")
                            ∷ ("forgotPassword", "Forgot Password?")
                            ∷ [])),
                    )
                    ∷ (
                      "common",
                      object (
                          texts (
                            ("loading", "Loading...")
                            ∷ ("error", "Something went wrong")
                            ∷ ("retry", "Try Again")
                            ∷ ("confirm", "Confirm")
                            ∷ ("cancel", "Cancel")
                            ∷ [])),
                    )
                    ∷ [])),
            )
            ∷ [])),
    )
    ∷ ("themeMode", text "light")
    ∷ [])
